-- ===== src/Plan/Table/Scope.antt =====
-- Which records the planner looks at.
use dns_sync.Base.{
  ◌≡◌, ◌↔◌, refl, Bool, true, false, Option, none, some, List, [], ◌∷◌, Str, All, OptAll, Memᴰ, any,
  any_of_mem, any_found, ◌==◌, str_eq, if◌then◌else◌, arith, Bool-cases, inl, inr, subst, sym, keep,
  mem_of_mem-keep, mem-keep_of_mem,
}
use dns_sync.Store.{Ref, Store}
use dns_sync.DomainFilter.{DomainFilter, match, match_all}
use dns_sync.Plan.Table.{is_managed_record, filter_records_for_plan}

-- The record type is not excluded, and is listed where there is a list.
abbrev IsManaged : Str → Option (List Str) → List Str → Type 0
IsManaged type managed excluded =
    (Memᴰ type excluded → ⊥) × OptAll (λ types. Memᴰ type types) managed

-- Every filter that is there matches the name.
abbrev MatchesAll : List (Option DomainFilter) → Str → Type 0
MatchesAll filters name = All (OptAll (λ f. match f name ≡ true)) filters

match_all→MatchesAll :
    (fs : List (Option DomainFilter)) (name : Str) → match_all fs name ≡ true → MatchesAll fs name
unfolding match_all
match_all→MatchesAll [] name h = tt
match_all→MatchesAll (none ∷ fs) name h = (tt, match_all→MatchesAll fs name h)
match_all→MatchesAll (some f ∷ fs) name h = ground (arith, match_all→MatchesAll fs name)

MatchesAll→match_all :
    (fs : List (Option DomainFilter)) (name : Str) → MatchesAll fs name → match_all fs name ≡ true
unfolding match_all
MatchesAll→match_all [] name h = refl
MatchesAll→match_all (none ∷ fs) name (_, h) = MatchesAll→match_all fs name h
MatchesAll→match_all (some f ∷ fs) name (p, h) = rw p (MatchesAll→match_all fs name h)

mem_of_any : (type : Str) (l : List Str) → any (λ r. type == r) l ≡ true → Memᴰ type l
mem_of_any type l h =
    let (x, m, e) = any_found (λ r. type == r) l h in
    subst (λ y. Memᴰ y l) (sym ((str_eq.beq_iff type x).0 e)) m

any_of_type : (type : Str) (l : List Str) → Memᴰ type l → any (λ r. type == r) l ≡ true
any_of_type type l m = any_of_mem type (λ r. type == r) l m ((str_eq.beq_iff type type).1 refl)

not_excluded : (type : Str) (l : List Str) → any (λ r. type == r) l ≡ false → Memᴰ type l → ⊥
not_excluded type l h m = cc (any_of_type type l m)

excluded_false : (type : Str) (l : List Str) → (Memᴰ type l → ⊥) → any (λ r. type == r) l ≡ false
excluded_false type l h = elim (Bool-cases (any (λ r. type == r) l)) [
  | inl found ↦ absurd (h (mem_of_any type l found))
  | inr missing ↦ missing
]

-- `IsManagedRecord` is true exactly for a type that is not excluded and, where a list of managed
-- types is given, stands in it.
is_managed_record_iff :
    (type : Str) (managed : Option (List Str)) (excluded : List Str)
    → (is_managed_record type managed excluded ≡ true) ↔ IsManaged type managed excluded
unfolding is_managed_record
is_managed_record_iff type none excluded = (
  λ h. (not_excluded type excluded (ground arith), tt),
  λ h. rw (excluded_false type excluded h.0),
)
is_managed_record_iff type (some types) excluded = (
  λ h. (not_excluded type excluded (ground arith), mem_of_any type types (ground arith)),
  λ h. rw (excluded_false type excluded h.0) (any_of_type type types h.1),
)

module _ (s : Store) (filter : List (Option DomainFilter)) (managed : Option (List Str))
    (excluded : List Str) where
  abbrev pub InScope : Ref → Type 0
  InScope r = MatchesAll filter (s r).dns_name × IsManaged (s r).record_type managed excluded

  passes : Ref → Bool
  passes r =
      if match_all filter (s r).dns_name
      then is_managed_record (s r).record_type managed excluded
      else false

  filter-eq-keep :
      (rs : List Ref) → filter_records_for_plan s filter managed excluded rs ≡ keep passes rs
  unfolding filter_records_for_plan passes
  filter-eq-keep [] = refl
  filter-eq-keep (r ∷ rs) = ground (arith, filter-eq-keep rs)

  passes_iff : (r : Ref) → (passes r ≡ true) ↔ InScope r
  unfolding passes
  passes_iff r = (
    λ h. (
      match_all→MatchesAll filter _ (ground arith),
      (is_managed_record_iff _ managed excluded).0 (ground arith),
    ),
    λ h. rw (MatchesAll→match_all filter _ h.0) ((is_managed_record_iff _ managed excluded).1 h.1),
  )

  -- The planner looks at exactly those records of a list whose name every filter matches and whose
  -- type is managed.
  pub mem-filter_records_for_plan :
      (rs : List Ref) (r : Ref)
      → Memᴰ r (filter_records_for_plan s filter managed excluded rs) ↔ (Memᴰ r rs × InScope r)
  mem-filter_records_for_plan rs r = rw filter-eq-keep (
    (λ m. let (a, b) = mem_of_mem-keep passes rs m in (a, (passes_iff r).0 b)),
    (λ h. mem-keep_of_mem passes h.0 ((passes_iff r).1 h.1)),
  )
