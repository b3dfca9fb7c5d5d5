-- ===== src/DomainFilter/Restore.antt =====
-- A domain filter that is written as JSON and read back
use dns_sync.Base.{
  ◌≡◌, ◌↔◌, ◌⊎◌, inl, inr, refl, sym, ap, subst, Bool, true, false, List, [], ◌∷◌, Str, Memᴰ, none,
  sort_by, sort_by-perm, str_ltb, perm_mem, trim_space,
}
use mathlib.Core.List.Permᴰ
use dns_sync.Attempt.{Attempt, returned}
use dns_sync.DomainFilter.{
  DomainFilter, Regex, is_nil, stripped, prepare_filters, match, new_domain_filter_with_exclusions,
}
use dns_sync.DomainFilter.Match.{IsCovered, match_iff}
use dns_sync.DomainFilter.Json.{
  DomainFilterSerde, sorted, marshal_json, unmarshal_json, filter_of_serde,
}

-- The constructors take the domain as it is.
abbrev pub IsPrepared : Str → Type 0
IsPrepared f = (f ≡ [] → ⊥) × (stripped (trim_space f) ≡ f)

abbrev pub ArePrepared : List Str → Type 0
ArePrepared fs = (f : Str) → Memᴰ f fs → IsPrepared f

prepare_filters-prepared : (fs : List Str) → ArePrepared fs → prepare_filters fs ≡ fs
unfolding prepare_filters
prepare_filters-prepared [] h = refl
prepare_filters-prepared (f ∷ fs) h =
    let (filled, same) = h f (Memᴰ.head refl) in
    let rest = prepare_filters-prepared fs (λ g m. h g (Memᴰ.tail m)) in
    let keeps = not_nil f filled in rw (same, keeps) (ap (λ l. f ∷ l) rest)
  where
    not_nil : (f : Str) → (f ≡ [] → ⊥) → is_nil f ≡ false
    not_nil [] h = absurd (h refl)
    not_nil (c ∷ f) h = refl

sort_by-ArePrepared : (fs : List Str) → ArePrepared fs → ArePrepared (sort_by str_ltb fs)
sort_by-ArePrepared fs h f m = h f (perm_mem (sort_by-perm str_ltb fs) m)

sorted_back : {f : Str} (fs : List Str) → Memᴰ f fs → Memᴰ f (sort_by str_ltb fs)
sorted_back fs m = perm_mem (Permᴰ.symm (sort_by-perm str_ltb fs)) m

same_test : (a b : Bool) → (a ≡ true) ↔ (b ≡ true) → a ≡ b
same_test true b h = sym (h.0 refl)
same_test false true h = h.1 refl
same_test false false h = refl

-- A filter of two lists of domains, without regular expressions
abbrev pub listed : List Str → List Str → DomainFilter
listed fs xs = record { filters = fs; exclude = xs; regex = none; regex_exclusion = none }

no_member-nil : (fs : List Str) → ((f : Str) → Memᴰ f fs → ⊥) → fs ≡ []
no_member-nil [] h = refl
no_member-nil (f ∷ fs) h = absurd (h f (Memᴰ.head refl))

-- A list of the members of an empty one is empty.
nil_when_within : (fs gs : List Str) → ((f : Str) → Memᴰ f fs → Memᴰ f gs) → gs ≡ [] → fs ≡ []
nil_when_within fs gs h e = no_member-nil fs (λ f m. elim (subst (λ l. Memᴰ f l) e (h f m)) [ ])

-- Matching does not depend on the order of the lists.
in_any_order :
    (fs : List Str) (name : Str)
    → ((fs ≡ []) ⊎ IsCovered fs name)
      ↔ ((sort_by str_ltb fs ≡ []) ⊎ IsCovered (sort_by str_ltb fs) name)
in_any_order fs name = (
  λ h. elim h [
    | inl e ↦ inl (nil_when_within _ fs (λ f. perm_mem (sort_by-perm str_ltb fs)) e)
    | inr (f, (m, c)) ↦ inr (f, (sorted_back fs m, c))
  ],
  λ h. elim h [
    | inl e ↦ inl (nil_when_within fs _ (λ f. sorted_back fs) e)
    | inr (f, (m, c)) ↦ inr (f, (perm_mem (sort_by-perm str_ltb fs) m, c))
  ],
)

match-sorted :
    (fs xs : List Str) (name : Str)
    → match (listed (sort_by str_ltb fs) (sort_by str_ltb xs)) name ≡ match (listed fs xs) name
match-sorted fs xs name =
    let a = match_iff (listed (sort_by str_ltb fs) (sort_by str_ltb xs)) name refl refl in
    let b = match_iff (listed fs xs) name refl refl in
    same_test _ _ (
      (λ h. let (m, n) = a.0 h in b.1 ((in_any_order fs _).1 m, λ f i. n f (sorted_back xs i))),
      (λ h.
          let (m, n) = b.0 h in
          a.1 ((in_any_order fs _).0 m, λ f i. n f (perm_mem (sort_by-perm str_ltb xs) i))),
    )

new-prepared :
    (fs xs : List Str)
    → ArePrepared fs
    → ArePrepared xs
    → new_domain_filter_with_exclusions fs xs ≡ listed fs xs
unfolding new_domain_filter_with_exclusions
new-prepared fs xs h k = rw (prepare_filters-prepared fs h, prepare_filters-prepared xs k)

-- What is written of a filter of two lists
abbrev pub written : List Str → List Str → DomainFilterSerde
written fs xs = record {
  include = sort_by str_ltb fs;
  exclude = sort_by str_ltb xs;
  regex_include = [];
  regex_exclude = [];
}

-- Where JSON writes the record of a filter of two lists of prepared domains and reads it back as it
-- was written, MarshalJSON gives a text and sorts the lists of the filter; UnmarshalJSON makes the
-- sorted filter of the text; and this filter matches the names that the filter matched before.
pub unmarshal_json-marshal_json :
    {E C : Type 0} (encode : DomainFilterSerde → Attempt E Str)
    (decode : Str → Attempt E DomainFilterSerde) (compile : Str → Attempt C Regex)
    (fs xs : List Str) (text : Str)
    → ArePrepared fs
    → ArePrepared xs
    → encode (written fs xs) ≡ returned text
    → decode text ≡ returned (written fs xs)
    → (marshal_json encode (listed fs xs) ≡ (returned text, sorted (listed fs xs)))
      × (unmarshal_json decode compile text ≡ returned (sorted (listed fs xs)))
      × ((name : Str) → match (sorted (listed fs xs)) name ≡ match (listed fs xs) name)
unfolding marshal_json unmarshal_json filter_of_serde sorted
unmarshal_json-marshal_json encode decode compile fs xs text h k e d = (
  ap (λ t. (t, sorted (listed fs xs))) e,
  rw (unmarshal_json, d)
      (ap returned (new-prepared _ _ (sort_by-ArePrepared fs h) (sort_by-ArePrepared xs k))),
  match-sorted fs xs,
)
