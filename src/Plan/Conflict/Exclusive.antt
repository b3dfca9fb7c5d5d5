-- ===== src/Plan/Conflict/Exclusive.antt =====
-- plan/plan.go and plan/conflict.go: a name gets no CNAME record together with others.
use dns_sync.Base.{
  ◌≡◌, refl, ap, ◌∙◌, Bool, true, false, not, List, [], ◌∷◌, Str, ◌==◌, str_eq, any, any_of_mem,
  leb, length, map, All, ◌⊎◌, inl, inr, Memᴰ, Entries, if_both, Bool-cases, arith,
}
use dns_sync.Endpoint.{record_type_cname}
use dns_sync.Store.{Ref, Store}
use dns_sync.Plan.Table.{DomainEndpoints, Records, PlanTableRow}
use dns_sync.Plan.Conflict.{is_cname, drop_cname, resolve_record_types}

-- The candidates of each record type are candidates of the row, of that type.
abbrev pub GroupOf : Store → List Ref → Str → DomainEndpoints → Type 0
GroupOf s cs type g = All (λ r. Memᴰ r cs × ((s r).record_type ≡ type)) g.candidates

abbrev pub IsGrouped : Store → PlanTableRow → Type 0
IsGrouped s row = Entries (GroupOf s row.candidates) row.records

-- Either no CNAME record is wanted, or nothing else.
abbrev pub NoCnames : Records → Type 0
NoCnames recs = Entries (λ type g. (type == record_type_cname) ≡ true → g.candidates ≡ []) recs

abbrev pub OnlyCnames : Records → Type 0
OnlyCnames recs = Entries (λ type g. (type == record_type_cname) ≡ false → g.candidates ≡ []) recs

abbrev pub IsExclusive : Records → Type 0
IsExclusive recs = NoCnames recs ⊎ OnlyCnames recs

conflict-length :
    (p : Ref → Bool) (cs : List Ref)
    → any p cs ≡ true
    → any (λ c. not (p c)) cs ≡ true
    → leb (length cs) 1 ≡ false
conflict-length p [] a b = cc
conflict-length p (c ∷ []) a b = ground (arith, a, b)
conflict-length p (c ∷ d ∷ cs) a b = ground arith

no_cname :
    (s : Store) (cs : List Ref) (recs : Records)
    → any (is_cname s) cs ≡ false
    → Entries (GroupOf s cs) recs
    → NoCnames recs
no_cname s cs [] a h = tt
no_cname s cs ((type, g) ∷ recs) a (p, h) = (empty g.candidates p, no_cname s cs recs a h)
  where
    empty :
        (l : List Ref)
        → All (λ r. Memᴰ r cs × ((s r).record_type ≡ type)) l
        → (type == record_type_cname) ≡ true
        → l ≡ []
    empty [] q e = refl
    empty (r ∷ l) ((m, t), q) e =
        let found : any (is_cname s) cs ≡ true =
          any_of_mem r (is_cname s) cs m (ap (λ x. x == record_type_cname) t ∙ e) in
        cc

no_other :
    (s : Store) (cs : List Ref) (recs : Records)
    → any (λ c. not (is_cname s c)) cs ≡ false
    → Entries (GroupOf s cs) recs
    → OnlyCnames recs
no_other s cs [] a h = tt
no_other s cs ((type, g) ∷ recs) a (p, h) = (empty g.candidates p, no_other s cs recs a h)
  where
    empty :
        (l : List Ref)
        → All (λ r. Memᴰ r cs × ((s r).record_type ≡ type)) l
        → (type == record_type_cname) ≡ false
        → l ≡ []
    empty [] q e = refl
    empty (r ∷ l) ((m, t), q) e =
        let found : any (λ c. not (is_cname s c)) cs ≡ true =
          any_of_mem r (λ c. not (is_cname s c)) cs m
            (ap (λ x. not (x == record_type_cname)) t ∙ ap not e) in
        cc

dropped : (recs : Records) → NoCnames (map drop_cname recs)
dropped [] = tt
dropped ((type, g) ∷ recs) = elim (Bool-cases (type == record_type_cname)) [
  | inl same ↦ rw same (λ e. refl, dropped recs)
  | inr other ↦ rw other (λ e. cc, dropped recs)
]

-- What the resolver leaves of the candidates of a row
pub resolve_record_types-IsExclusive :
    (s : Store) (row : PlanTableRow) → IsGrouped s row → IsExclusive (resolve_record_types s row)
unfolding resolve_record_types
resolve_record_types-IsExclusive s row h = elim (Bool-cases (any (is_cname s) row.candidates)) [
  | inr none_is ↦ rw none_is (
      if_both IsExclusive (leb (length row.candidates) 1)
        (inl (no_cname s row.candidates row.records none_is h))
        (inl (no_cname s row.candidates row.records none_is h)))
  | inl some_is ↦ elim (Bool-cases (any (λ c. not (is_cname s c)) row.candidates)) [
    | inr none_is ↦
        rw (some_is, none_is)
          (if_both IsExclusive (leb (length row.candidates) 1)
            (inr (no_other s row.candidates row.records none_is h))
            (inr (no_other s row.candidates row.records none_is h)))
    | inl both ↦
        rw (conflict-length (is_cname s) row.candidates some_is both, some_is, both)
          (inl (dropped row.records))
  ]
]
