-- ===== src/Plan/Calculate/Sound.antt =====
-- Where the planned changes come from: an invariant of the loops of `Calculate`, over any facts
-- about the records of the table.
use dns_sync.Base.{
  true, Option, none, some, List, [], ◌∷◌, ◌++◌, Str, All, OptAll, All-append, All-snoc, All-perm,
  ◌==◌, str_eq, if_both, map, leb, length, not, ◌&&◌, ◌||◌,
}
use dns_sync.Endpoint.{record_type_cname}
use dns_sync.Targets.{NetIp}
use dns_sync.Store.{Ref, Store, ◌>>◌, read, sort_in_place, same}
use dns_sync.Store.Ensures.{
  Ensures, Ensures-pure, Ensures-if, Ensures-bind, Ensures-read, Ensures-same, Any,
}
use dns_sync.DomainFilter.{is_nil}
use dns_sync.Plan.Table.{DomainEndpoints, PlanTableRow, Records, Rows}
use dns_sync.Plan.Policy.{Changes}
use dns_sync.Plan.Conflict.{resolve_create, resolve_update, drop_cname, resolve_record_types}
use dns_sync.Plan.Conflict.Choice.{resolve_create-Ensures, resolve_update-Ensures}
use dns_sync.Plan.Calculate.{
  MapOrder, push, needs_update, inherit_owner, create_group, create_groups, update_existing,
  update_group, update_groups, add_creates, owners_match, plan_row, new_type, known_type, plan_rows,
  should_update_ttl, should_update_provider_specific,
}

-- Two lists of one length, related item by item.
abbrev pub Aligned : (Ref → Ref → Type 0) → List Ref → List Ref → Type 0
Aligned R [] [] = Unit
Aligned R (o ∷ os) (n ∷ ns) = R o n × Aligned R os ns
Aligned R _ _ = ⊥

pub Aligned-snoc :
    (R : Ref → Ref → Type 0) (os ns : List Ref) (o n : Ref)
    → Aligned R os ns
    → R o n
    → Aligned R (os ++ o ∷ []) (ns ++ n ∷ [])
Aligned-snoc R [] [] o n h r = (r, tt)
Aligned-snoc R (p ∷ os) (m ∷ ns) o n (q, h) r = (q, Aligned-snoc R os ns o n h r)
Aligned-snoc R [] (m ∷ ns) o n h r = absurd h
Aligned-snoc R (p ∷ os) [] o n h r = absurd h

module _ (Cur Des : Ref → Type 0) (Pair : Ref → Ref → Type 0) where
  abbrev pub GroupOk : DomainEndpoints → Type 0
  GroupOk g = OptAll (λ c. Cur c × All (Pair c) g.candidates) g.current × All Des g.candidates

  abbrev pub RecordsOk : Records → Type 0
  RecordsOk m = All (λ t. GroupOk t.1) m

  pub record RowOk (row : PlanTableRow) : Type 0 where
    pub current : All Cur row.current
    pub records : RecordsOk row.records

  pub record ChangesOk (c : Changes) : Type 0 where
    pub created : All Des c.create
    pub updated : Aligned Pair c.update_old c.update_new
    pub deleted : All Cur c.delete

  no_candidates :
      (cs : List Ref) (o : Option Ref)
      → OptAll (λ c. Cur c × All (Pair c) cs) o
      → OptAll (λ c. Cur c × Unit {0}) o
  no_candidates cs none h = tt
  no_candidates cs (some c) (p, h) = (p, tt)

  drop_cname-GroupOk : (t : Str × DomainEndpoints) → GroupOk t.1 → GroupOk (drop_cname t).1
  drop_cname-GroupOk (type, g) (h, k) =
      if_both (λ (t : Str × DomainEndpoints). GroupOk t.1) (type == record_type_cname)
        (no_candidates g.candidates g.current h, tt) (h, k)

  drop_cname-RecordsOk : (m : Records) → RecordsOk m → RecordsOk (map drop_cname m)
  drop_cname-RecordsOk [] h = tt
  drop_cname-RecordsOk (t ∷ m) (p, h) = (drop_cname-GroupOk t p, drop_cname-RecordsOk m h)

  resolve_record_types-RecordsOk :
      (s : Store) (row : PlanTableRow)
      → RecordsOk row.records
      → RecordsOk (resolve_record_types s row)
  unfolding resolve_record_types
  resolve_record_types-RecordsOk s row h =
      if_both RecordsOk (leb (length row.candidates) 1) h
        (if_both RecordsOk _ (drop_cname-RecordsOk row.records h) h)

  push-All :
      (P : Ref → Type 0) (rs : List Ref) (r : Option Ref)
      → All P rs
      → OptAll P r
      → All P (push rs r)
  push-All P rs none l q = l
  push-All P rs (some r) l q = All-snoc P rs r l q

  module _ {I : Store → Type 0} (net : NetIp)
      (sorts : (r : Ref) (s : Store) → I s → I (sort_in_place net r s).1)
      (inherits : (c d : Ref) → Pair c d → (s : Store) → I s → I (inherit_owner c d s).1) where
    create_group-Ensures :
        (c : Changes) (t : Str × DomainEndpoints)
        → ChangesOk c
        → GroupOk t.1
        → Ensures I ChangesOk (create_group net c t)
    unfolding create_group
    create_group-Ensures c (type, g) h k =
        Ensures-if (is_nil g.candidates) _ _ (λ _. Ensures-pure c h)
          (λ _.
            Ensures-bind (resolve_create net g.candidates) _
              (resolve_create-Ensures net sorts Des g.candidates k.1)
              λ r q. Ensures-pure _ (record {
                created = push-All Des c.create r h.created q;
                updated = h.updated;
                deleted = h.deleted;
              }))

    create_groups-Ensures :
        (c : Changes) (m : Records)
        → ChangesOk c
        → RecordsOk m
        → Ensures I ChangesOk (create_groups net c m)
    unfolding create_groups
    create_groups-Ensures c [] h k = Ensures-pure c h
    create_groups-Ensures c (t ∷ m) h (p, k) =
        Ensures-bind (create_group net c t) _ (create_group-Ensures c t h p)
          λ c' h'. create_groups-Ensures c' m h' k

    needs_update-Ensures : (u c : Ref) → Ensures I Any (needs_update net u c)
    unfolding needs_update
    needs_update-Ensures u c = Ensures-bind (read u) _ (Ensures-read u) λ a _.
        Ensures-bind (read c) _ (Ensures-read c) λ b _.
          Ensures-if (should_update_ttl a b) _ _ (λ _. Ensures-pure true tt)
            (λ _. Ensures-bind (same net u c) _ (Ensures-same net sorts u c) λ equal _.
              Ensures-bind (read u) _ (Ensures-read u) λ a' _.
                Ensures-bind (read c) _ (Ensures-read c)
                  λ b' _. Ensures-pure (not equal || should_update_provider_specific a' b') tt)

    inherit_owner-Ensures : (c d : Ref) → Pair c d → Ensures I Any (inherit_owner c d)
    inherit_owner-Ensures c d p = record { run = λ s h. (tt, inherits c d p s h) }

    update_existing-Ensures :
        (ch : Changes) (c : Ref) (r : Option Ref)
        → ChangesOk ch
        → OptAll (Pair c) r
        → Ensures I ChangesOk (update_existing net ch c r)
    unfolding update_existing ◌>>◌
    update_existing-Ensures ch c none h q = Ensures-pure ch h
    update_existing-Ensures ch c (some u) h q =
        Ensures-bind (needs_update net u c) _ (needs_update-Ensures u c) λ needed _.
          Ensures-if needed _ _
            (λ _. Ensures-bind (inherit_owner c u) _ (inherit_owner-Ensures c u q) λ _ _.
              Ensures-pure _ (record {
                created = h.created;
                updated = Aligned-snoc Pair ch.update_old ch.update_new c u h.updated q;
                deleted = h.deleted;
              }))
            (λ _. Ensures-pure ch h)

    abbrev AccOk : Changes × List Ref → Type 0
    AccOk acc = ChangesOk acc.0 × All Des acc.1

    new_type-Ensures :
        (ch : Changes) (creates : List Ref) (g : DomainEndpoints)
        → AccOk (ch, creates)
        → All Des g.candidates
        → Ensures I AccOk (new_type net (ch, creates) g)
    unfolding new_type
    new_type-Ensures ch creates g (h, l) k =
        Ensures-if (is_nil g.candidates) _ _ (λ _. Ensures-pure _ (h, l))
          (λ _.
            Ensures-bind (resolve_create net g.candidates) _
              (resolve_create-Ensures net sorts Des g.candidates k)
              λ r q. Ensures-pure _ (h, push-All Des creates r l q))

    known_type-Ensures :
        (ch : Changes) (creates : List Ref) (g : DomainEndpoints) (c : Ref)
        → AccOk (ch, creates)
        → Cur c
        → All (Pair c) g.candidates
        → Ensures I AccOk (known_type net (ch, creates) g c)
    unfolding known_type
    known_type-Ensures ch creates g c (h, l) p k =
        Ensures-if (is_nil g.candidates) _ _
          (λ _. Ensures-pure _ (
            record {
              created = h.created;
              updated = h.updated;
              deleted = All-snoc Cur ch.delete c h.deleted p;
            },
            l,
          ))
          (λ _.
            Ensures-bind (resolve_update net c g.candidates) _
              (resolve_update-Ensures net sorts (Pair c) c g.candidates k)
              λ r q.
                Ensures-bind (update_existing net ch c r) _ (update_existing-Ensures ch c r h q)
                  λ ch' h'. Ensures-pure _ (h', l))

    update_group-Ensures :
        (acc : Changes × List Ref) (g : DomainEndpoints) (o : Option Ref)
        → AccOk acc
        → OptAll (λ c. Cur c × All (Pair c) g.candidates) o
        → All Des g.candidates
        → Ensures I AccOk (update_group net acc g o)
    unfolding update_group
    update_group-Ensures (ch, l) g none h _ k = new_type-Ensures ch l g h k
    update_group-Ensures (ch, l) g (some c) h (p, q) k = known_type-Ensures ch l g c h p q

    update_groups-Ensures :
        (acc : Changes × List Ref) (m : Records)
        → AccOk acc
        → RecordsOk m
        → Ensures I AccOk (update_groups net acc m)
    unfolding update_groups
    update_groups-Ensures acc [] h k = Ensures-pure acc h
    update_groups-Ensures acc ((type, g) ∷ m) h ((p, q), k) =
        Ensures-bind (update_group net acc g g.current) _
          (update_group-Ensures acc g g.current h p q) λ acc' h'. update_groups-Ensures acc' m h' k

    add_creates-Ensures :
        (owner : Str) (current : List Ref) (ch : Changes) (creates : List Ref)
        → AccOk (ch, creates)
        → Ensures I ChangesOk (add_creates owner current ch creates)
    unfolding add_creates
    add_creates-Ensures owner current ch creates (h, l) = record {
      run = λ s i.
          if_both (λ (t : Changes × Store). ChangesOk t.0 × I t.1)
            (not (is_nil creates) && owners_match owner current s)
            (
              record {
                created = All-append Des ch.create creates h.created l;
                updated = h.updated;
                deleted = h.deleted;
              },
              i,
            )
            (h, i);
    }

    module _ (order : MapOrder) where
      plan_row-Ensures :
          (owner : Str) (ch : Changes) (row : PlanTableRow)
          → ChangesOk ch
          → RowOk row
          → Ensures I ChangesOk (plan_row net order owner ch row)
      unfolding plan_row
      plan_row-Ensures owner ch row h k = record {
        run = λ s i.
            let m = order.records (resolve_record_types s row) in
            let ok =
              All-perm (λ t. GroupOk t.1) (order.records-perm (resolve_record_types s row))
                (resolve_record_types-RecordsOk s row k.records) in
            if_both (λ (t : Changes × Store). ChangesOk t.0 × I t.1) (is_nil row.current)
              ((create_groups-Ensures ch m h ok).run s i)
              (if_both (λ (t : Changes × Store). ChangesOk t.0 × I t.1) (is_nil row.candidates)
                (
                  record {
                    created = h.created;
                    updated = h.updated;
                    deleted = All-append Cur ch.delete row.current h.deleted k.current;
                  },
                  i,
                )
                ((Ensures-bind (update_groups net (ch, []) m) _
                    (update_groups-Ensures (ch, []) m (h, tt) ok)
                    λ acc l. add_creates-Ensures owner row.current acc.0 acc.1 l).run
                  s i));
      }

      pub plan_rows-Ensures :
          (owner : Str) (ch : Changes) (rows : Rows)
          → ChangesOk ch
          → All (λ t. RowOk t.1) rows
          → Ensures I ChangesOk (plan_rows net order owner ch rows)
      unfolding plan_rows
      plan_rows-Ensures owner ch [] h k = Ensures-pure ch h
      plan_rows-Ensures owner ch ((key, row) ∷ rows) h (p, k) =
          Ensures-bind (plan_row net order owner ch row) _ (plan_row-Ensures owner ch row h p)
            λ ch' h'. plan_rows-Ensures owner ch' rows h' k
