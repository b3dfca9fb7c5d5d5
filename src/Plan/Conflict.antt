-- ===== src/Plan/Conflict.antt =====
-- plan/conflict.go: the PerResource resolver, which picks one candidate for a name.
pub mod Choice
pub mod Exclusive
use dns_sync.Base.{
  Bool, ◌&&◌, not, Option, none, some, List, [], ◌∷◌, reverse, Str, ◌==◌, str_eq, any, map, leb,
  length, if◌then◌else◌,
}
use dns_sync.Endpoint.{
  Endpoint, label, label_in, resource_label_key, value_or_empty, record_type_cname,
}
use dns_sync.Targets.{NetIp}
use dns_sync.Store.{Ref, Store, St, ◌>>=◌, pure, read, is_less}
use dns_sync.Plan.Table.{DomainEndpoints, PlanTableRow, Records}

-- `ep.Labels[endpoint.ResourceLabelKey]`
unfoldable pub resource : Endpoint → Str
unfolding label_in
resource e = value_or_empty (label resource_label_key e)

module _ (net : NetIp) where
  -- The loop of `ResolveCreate`, with the minimum so far.
  unfoldable pub min_from : Ref → List Ref → St Ref
  min_from min [] = pure min
  min_from min (ep ∷ eps) = do
    smaller ← is_less net ep min
    min_from (if smaller then ep else min) eps

  -- `ResolveCreate`; `none` is the nil of an empty list.
  unfoldable pub resolve_create : List Ref → St (Option Ref)
  resolve_create [] = pure none
  resolve_create (ep ∷ eps) = do min ← min_from ep eps; pure (some min)

  -- sort.SliceStable with `s.less`, whose calls sort targets in place: one candidate into the
  -- sorted part, which is held from its right end,
  unfoldable pub insert_candidate : Ref → List Ref → St (List Ref)
  insert_candidate c [] = pure (c ∷ [])
  insert_candidate c (p ∷ ps) = do
    smaller ← is_less net c p
    if smaller then (do rest ← insert_candidate c ps; pure (p ∷ rest)) else pure (c ∷ p ∷ ps)

  -- and the loop over the candidates.
  unfoldable pub sort_candidates : List Ref → List Ref → St (List Ref)
  sort_candidates sorted [] = pure (reverse sorted)
  sort_candidates sorted (c ∷ cs) = do
    sorted' ← insert_candidate c sorted
    sort_candidates sorted' cs

  -- The loop that looks for the resource that holds the name
  unfoldable pub find_resource : Str → List Ref → St (Option Ref)
  find_resource current [] = pure none
  find_resource current (ep ∷ eps) = do
    e ← read ep
    if resource e == current then pure (some ep) else find_resource current eps

  -- The end of `ResolveUpdate`: the resource's own candidate, else the minimum
  unfoldable pub or_create : List Ref → Option Ref → St (Option Ref)
  or_create sorted none = resolve_create sorted
  or_create sorted (some ep) = pure (some ep)

  -- `ResolveUpdate`
  unfoldable pub resolve_update : Ref → List Ref → St (Option Ref)
  resolve_update current candidates = do
    c ← read current
    sorted ← sort_candidates [] candidates
    found ← find_resource (resource c) sorted
    or_create sorted found

abbrev pub is_cname : Store → Ref → Bool
is_cname s r = (s r).record_type == record_type_cname

abbrev pub drop_cname : Str × DomainEndpoints → Str × DomainEndpoints
drop_cname (type, recs) =
    if type == record_type_cname then (type, record recs { candidates = [] }) else (type, recs)

-- `ResolveRecordTypes`: with both a CNAME and another type among the candidates, the CNAME group
-- keeps its current record and loses its candidates.
unfoldable pub resolve_record_types : Store → PlanTableRow → Records
resolve_record_types s row =
    if leb (length row.candidates) 1
    then row.records
    else if any (is_cname s) row.candidates && any (λ c. not (is_cname s c)) row.candidates
    then map drop_cname row.records
    else row.records
