-- ===== src/Provider/Helpers/Zone.antt =====
-- provider/zonefinder.go: the zone that is found has the longest name.
use dns_sync.Base.{
  ◌≡◌, ◌≤◌, refl, true, ◌&&◌, ◌||◌, List, [], ◌∷◌, Str, str_eq, length, ltb, if◌then◌else◌, ◌⊎◌,
  inl, inr, All, Memᴰ, Bool-cases, arith, subst, sym, ◌∙◌,
}
use dns_sync.Provider.Helpers.{in_zone, is_empty, find_from, find_zone}

-- One round of the loop keeps the longer name.
better : (hostname : Str) (best z : Str × Str) → Str × Str
better hostname best z =
    if in_zone hostname z.1 && (is_empty best.1 || ltb (length best.1) (length z.1))
    then z
    else best

better-le :
    (hostname : Str) (best z : Str × Str)
    → (length best.1 ≤ length (better hostname best z).1)
      × (in_zone hostname z.1 ≡ true → length z.1 ≤ length (better hostname best z).1)
unfolding better
better-le hostname (id, []) z = (ground arith, λ h. ground (arith, h))
better-le hostname (id, c ∷ s) z = (ground arith, λ h. ground (arith, h))

better-IsZone :
    (hostname : Str) (best z : Str × Str)
    → (better hostname best z ≡ best)
      ⊎ ((better hostname best z ≡ z) × (in_zone hostname z.1 ≡ true))
unfolding better
better-IsZone hostname best z = elim (Bool-cases (in_zone hostname z.1)) [
  | inl inside ↦ elim (Bool-cases (is_empty best.1 || ltb (length best.1) (length z.1))) [
    | inl longer ↦ rw (inside, longer) (inr (refl, refl))
    | inr shorter ↦ rw (inside, shorter) (inl refl)
  ]
  | inr outside ↦ rw outside (inl refl)
]

find_from-le :
    (hostname : Str) (best : Str × Str) (zones : List (Str × Str))
    → (length best.1 ≤ length (find_from hostname best zones).1)
      × All
          (λ z. in_zone hostname z.1 ≡ true → length z.1 ≤ length (find_from hostname best zones).1)
          zones
unfolding find_from better
find_from-le hostname best [] = (omega arith, tt)
find_from-le hostname best (z ∷ zones) =
    let (l, l') = better-le hostname best z in
    let (m, ms) = find_from-le hostname (better hostname best z) zones in
    (omega (arith, l, m), ((λ h. omega (arith, l' h, m)), ms))

find_from-IsZone :
    (hostname : Str) (best : Str × Str) (zones : List (Str × Str))
    → (find_from hostname best zones ≡ best)
      ⊎ (Memᴰ (find_from hostname best zones) zones
          × (in_zone hostname (find_from hostname best zones).1 ≡ true))
unfolding find_from better
find_from-IsZone hostname best [] = inl refl
find_from-IsZone hostname best (z ∷ zones) =
    elim (find_from-IsZone hostname (better hostname best z) zones) [
      | inr (m, inside) ↦ inr (Memᴰ.tail m, inside)
      | inl same ↦ elim (better-IsZone hostname best z) [
        | inl kept ↦ inl (same ∙ kept)
        | inr (taken, inside) ↦ inr (
          Memᴰ.head (same ∙ taken),
          subst (λ t. in_zone hostname t.1 ≡ true) (sym (same ∙ taken)) inside,
        )
      ]
    ]

-- FindZone returns no zone, or one of the zones that takes the host name; and no zone that takes it
-- has a longer name, whatever the order of the zones.
pub find_zone_lem :
    (zones : List (Str × Str)) (hostname : Str)
    → ((find_zone zones hostname ≡ ([], []))
        ⊎ (Memᴰ (find_zone zones hostname) zones
            × (in_zone hostname (find_zone zones hostname).1 ≡ true)))
      × All
          (λ z. in_zone hostname z.1 ≡ true → length z.1 ≤ length (find_zone zones hostname).1)
          zones
unfolding find_zone
find_zone_lem zones hostname =
    (find_from-IsZone hostname ([], []) zones, (find_from-le hostname ([], []) zones).1)
