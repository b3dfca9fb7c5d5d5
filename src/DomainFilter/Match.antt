-- ===== src/DomainFilter/Match.antt =====
-- matchFilter of endpoint/domain_filter.go: which names a list of domains covers.
use dns_sync.Base.{
  ◌+◌, suc, ◌≡◌, ◌↔◌, ◌⊎◌, inl, inr, refl, ap, ◌∙◌, subst, Bool, true, false, ◌&&◌, not, List, [],
  ◌∷◌, ◌++◌, Str, codes, Memᴰ, ◌==◌, str_eq, nat_eq, arith, Bool-cases, if◌then◌else◌, EndsWith,
  has_suffix_iff, rest_of_prefix, has_prefix-append, has_prefix, has_suffix,
}
use dns_sync.DomainFilter.{
  DomainFilter, is_nil, is_set, stripped, count_dots, filter_matches, any_matches, match_filter,
  match,
}

-- A filter that starts with a dot covers what ends with it. Any other one covers its own domain and
-- the names below it.
abbrev pub Covers : Str → Str → Type 0
Covers filter name =
    (filter ≡ [] → ⊥)
    × (((g : Str) × (filter ≡ codes "." ++ g) × EndsWith name filter)
        ⊎ ((name ≡ filter) ⊎ EndsWith name (codes "." ++ filter)))

abbrev pub IsCovered : List Str → Str → Type 0
IsCovered filters name = (f : Str) × (Memᴰ f filters × Covers f name)

count_dots-append : (s t : Str) → count_dots (s ++ t) ≡ count_dots s + count_dots t
unfolding count_dots
count_dots-append [] t = omega arith
count_dots-append (c ∷ s) t = ground (arith, count_dots-append s t)

count_dots-dot : (s : Str) → count_dots (codes "." ++ s) ≡ suc (count_dots s)
unfolding count_dots
count_dots-dot s = refl

-- A name below a domain has more dots than the domain.
below-count_dots :
    (name filter : Str)
    → EndsWith name (codes "." ++ filter)
    → (count_dots name == count_dots filter) ≡ false
below-count_dots name filter (p, e) =
    let n : count_dots name ≡ count_dots p + suc (count_dots filter) =
      ap count_dots e
      ∙ count_dots-append p (codes "." ++ filter)
      ∙ ap (λ n. count_dots p + n) (count_dots-dot filter) in
    ground (arith, n)

same-count_dots : (s t : Str) → s ≡ t → (count_dots s == count_dots t) ≡ true
same-count_dots s t e = ground (arith, ap count_dots e)

-- A conclusion from two tests in the order of a conditional
if_true-cases :
    (b x y : Bool)
    → (if b then x else y) ≡ true
    → ((b ≡ true) × (x ≡ true)) ⊎ ((b ≡ false) × (y ≡ true))
if_true-cases true x y h = inl (refl, h)
if_true-cases false x y h = inr (refl, h)

nil_of-is_nil : (f : Str) → is_nil f ≡ false → f ≡ [] → ⊥
nil_of-is_nil f h e = let wrong : is_nil f ≡ true = ap is_nil e in cc

both : (a b : Bool) → (a && b) ≡ true → (a ≡ true) × (b ≡ true)
both a b h = (ground arith, ground arith)

filter_matches→Covers : (name f : Str) → filter_matches name f ≡ true → Covers f name
unfolding filter_matches
filter_matches→Covers name f h = elim (if_true-cases (is_nil f) _ _ h) [
  | inl (_, wrong) ↦ cc
  | inr (filled, h1) ↦ (
    nil_of-is_nil f filled,
    elim (if_true-cases (has_prefix f (codes ".") && has_suffix name f) _ _ h1) [
      | inl (dotted, _) ↦
          let (a, b) = both _ _ dotted in
          let (g, e) = rest_of_prefix f (codes ".") a in inl (g, e, (has_suffix_iff name f).0 b)
      | inr (_, h2) ↦ inr (elim (if_true-cases (count_dots name == count_dots f) _ _ h2) [
        | inl (_, same) ↦ inl ((str_eq.beq_iff name f).0 same)
        | inr (_, below) ↦ inr ((has_suffix_iff name _).0 below)
      ])
    ],
  )
]

Covers→filter_matches : (name f : Str) → Covers f name → filter_matches name f ≡ true
unfolding filter_matches
Covers→filter_matches name f (filled, c) = elim (Bool-cases (is_nil f)) [
  | inl e ↦ absurd (filled (nil f e))
  | inr e ↦ elim c [
    | inl (g, d, ends) ↦
        let dotted : has_prefix f (codes ".") ≡ true = rw d (has_prefix-append (codes ".") g) in
        ground (arith, e, dotted, (has_suffix_iff name f).1 ends)
    | inr c1 ↦ elim (Bool-cases (has_prefix f (codes ".") && has_suffix name f)) [
      | inl dotted ↦ ground (arith, e, dotted)
      | inr plain ↦ elim c1 [
        | inl same ↦
            ground (arith, e, plain, same-count_dots name f same, (str_eq.beq_iff name f).1 same)
        | inr below ↦ ground (
          arith,
          e,
          plain,
          below-count_dots name f below,
          (has_suffix_iff name (codes "." ++ f)).1 below,
        )
      ]
    ]
  ]
]
  where
    nil : (g : Str) → is_nil g ≡ true → g ≡ []
    nil [] h = refl
    nil (c ∷ g) h = cc

any_matches-IsCovered :
    (name : Str) (fs : List Str) → (any_matches name fs ≡ true) ↔ IsCovered fs name
unfolding any_matches
any_matches-IsCovered name [] = (λ h. cc, λ (f, (m, c)). elim m [ ])
any_matches-IsCovered name (f ∷ fs) = (
  λ h. elim (Bool-cases (filter_matches name f)) [
    | inl here ↦ (f, (Memᴰ.head refl, filter_matches→Covers name f here))
    | inr there ↦
        let (g, (m, c)) = (any_matches-IsCovered name fs).0 (rw there at h) in (g, (Memᴰ.tail m, c))
  ],
  λ (g, (m, c)). elim m [
    | Memᴰ.head e ↦ rw (Covers→filter_matches name f (subst (λ x. Covers x name) e c))
    | Memᴰ.tail n ↦ ground (arith, (any_matches-IsCovered name fs).1 (g, (n, c)))
  ],
)

none_covered :
    (name : Str) (fs : List Str)
    → (any_matches name fs ≡ false) ↔ ((f : Str) → Memᴰ f fs → Covers f name → ⊥)
none_covered name fs = (
  λ h f m c. let found = (any_matches-IsCovered name fs).1 (f, (m, c)) in cc,
  λ h. elim (Bool-cases (any_matches name fs)) [
    | inl found ↦ let (f, (m, c)) = (any_matches-IsCovered name fs).0 found in absurd (h f m c)
    | inr missing ↦ missing
  ],
)

-- The answers of `matchFilter` without filters, for the two ways it is called
module _ (name : Str) where
  included :
      (fs : List Str)
      → (match_filter fs name true ≡ true) ↔ ((fs ≡ []) ⊎ IsCovered fs (stripped name))
  unfolding match_filter
  included [] = (λ h. inl refl, λ h. refl)
  included (f ∷ fs) = (
    λ h. inr ((any_matches-IsCovered _ (f ∷ fs)).0 h),
    λ h. elim h [
      | inl e ↦ let wrong : is_nil (f ∷ fs) ≡ true = ap is_nil e in cc
      | inr c ↦ (any_matches-IsCovered _ (f ∷ fs)).1 c
    ],
  )

  excluded :
      (fs : List Str)
      → (not (match_filter fs name false) ≡ true)
        ↔ ((f : Str) → Memᴰ f fs → Covers f (stripped name) → ⊥)
  unfolding match_filter
  excluded [] = (λ h f m. elim m [ ], λ h. refl)
  excluded (f ∷ fs) =
      (λ h. (none_covered _ (f ∷ fs)).0 (ground arith), λ h. rw ((none_covered _ (f ∷ fs)).1 h))

-- A filter without regular expressions matches a name exactly if it has no domains, or one that
-- covers the name without its closing dot and in lower case, and no excluded domain covers it.
pub match_iff :
    (df : DomainFilter) (name : Str)
    → is_set df.regex ≡ false
    → is_set df.regex_exclusion ≡ false
    → (match df name ≡ true) ↔ (
        ((df.filters ≡ []) ⊎ IsCovered df.filters (stripped name))
        × ((f : Str) → Memᴰ f df.exclude → Covers f (stripped name) → ⊥))
unfolding match
match_iff df name plain unexcluded =
    rw (plain, unexcluded)
      (
        (λ h. let (a, b) = both _ _ h in ((included name _).0 a, (excluded name _).0 b)),
        (λ h. rw ((included name _).1 h.0) ((excluded name _).1 h.1)),
      )
