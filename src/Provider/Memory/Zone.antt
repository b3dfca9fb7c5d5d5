-- ===== src/Provider/Memory/Zone.antt =====
-- pkg/mem/inmemory.go: the zone that an endpoint belongs to.
use dns_sync.Base.{
  ◌≡◌, refl, sym, ap, ◌∙◌, subst, Bool, true, false, ◌&&◌, List, [], ◌∷◌, Str, length, leb,
  has_suffix, ◌≤◌, All, All-map, ◌⊎◌, inl, inr, Memᴰ, Bool-cases, arith, if◌then◌else◌,
}
use dns_sync.Endpoint.{Endpoint}
use dns_sync.Provider.Memory.{zone_id_from, endpoint_zone_id}

-- The zone stands in the list, its domain is a suffix of the name, and no suffix is longer.
abbrev pub IsLongest : Str → List (Str × Str) → Str × Str → Type 0
IsLongest name zones best =
    Memᴰ best zones
    × (has_suffix name best.1 ≡ true)
    × All (λ z. has_suffix name z.1 ≡ true → length z.1 ≤ length best.1) zones

next : Str → Str × Str → Str × Str → Str × Str
next name best z = if has_suffix name z.1 && leb (length best.1) (length z.1) then z else best

chosen : Str → Str × Str → List (Str × Str) → Str × Str
chosen name best [] = best
chosen name best (z ∷ zones) = chosen name (next name best z) zones

zone_id_from-chosen :
    (name : Str) (best : Str × Str) (zones : List (Str × Str))
    → zone_id_from name best zones ≡ (chosen name best zones).0
unfolding zone_id_from chosen next
zone_id_from-chosen name best [] = refl
zone_id_from-chosen name best (z ∷ zones) = zone_id_from-chosen name (next name best z) zones

next-le :
    (name : Str) (best z : Str × Str)
    → (length best.1 ≤ length (next name best z).1)
      × (has_suffix name z.1 ≡ true → length z.1 ≤ length (next name best z).1)
unfolding next
next-le name best z = elim (Bool-cases (leb (length best.1) (length z.1))) [
  | inl longer ↦ elim (Bool-cases (has_suffix name z.1)) [
    | inl suffix ↦ rw (suffix, longer) (ground (arith, longer), λ h. ground arith)
    | inr not_suffix ↦ rw not_suffix (ground arith, λ h. cc)
  ]
  | inr shorter ↦ elim (Bool-cases (has_suffix name z.1)) [
    | inl suffix ↦ rw (suffix, shorter) (ground arith, λ h. ground (arith, shorter))
    | inr not_suffix ↦ rw not_suffix (ground arith, λ h. cc)
  ]
]

chosen-le :
    (name : Str) (best : Str × Str) (zones : List (Str × Str))
    → (length best.1 ≤ length (chosen name best zones).1)
      × All (λ z. has_suffix name z.1 ≡ true → length z.1 ≤ length (chosen name best zones).1) zones
unfolding chosen
chosen-le name best [] = (ground arith, tt)
chosen-le name best (z ∷ zones) =
    let (l, l') = next-le name best z in
    let (m, ms) = chosen-le name (next name best z) zones in
    (ground (arith, l, m), ((λ h. ground (arith, l' h, m)), ms))

-- The zone takes the place of the best one so far.
abbrev wins : Str → Str × Str → Str × Str → Bool
wins name best z = has_suffix name z.1 && leb (length best.1) (length z.1)

won_next : (name : Str) (best z : Str × Str) → wins name best z ≡ true → next name best z ≡ z
unfolding next
won_next name best z h = rw h refl

lost_next : (name : Str) (best z : Str × Str) → wins name best z ≡ false → next name best z ≡ best
unfolding next
lost_next name best z h = rw h refl

-- The best one stays, or a zone that takes the name wins.
abbrev Settled : Str → Str × Str → List (Str × Str) → Str × Str → Type 0
Settled name best zones c =
    ((c ≡ best) × All (λ z. wins name best z ≡ false) zones)
    ⊎ (Memᴰ c zones × (has_suffix name c.1 ≡ true))

chosen_cases :
    (name : Str) (best : Str × Str) (zones : List (Str × Str))
    → Settled name best zones (chosen name best zones)
unfolding chosen
chosen_cases name best [] = inl (refl, tt)
chosen_cases name best (z ∷ zones) = elim (Bool-cases (wins name best z)) [
  | inr loses ↦
      subst (Settled name best (z ∷ zones))
        (ap (λ b. chosen name b zones) (sym (lost_next name best z loses)))
        (after_loss loses (chosen_cases name best zones))
  | inl won ↦
      subst (Settled name best (z ∷ zones))
        (ap (λ b. chosen name b zones) (sym (won_next name best z won)))
        (after_win won (chosen_cases name z zones))
]
  where
    after_loss :
        {c : Str × Str}
        → wins name best z ≡ false
        → Settled name best zones c
        → Settled name best (z ∷ zones) c
    after_loss loses (inl (same, l)) = inl (same, (loses, l))
    after_loss loses (inr (m, suffix)) = inr (Memᴰ.tail m, suffix)

    suffix_of : wins name best z ≡ true → has_suffix name z.1 ≡ true
    suffix_of h = ground (arith, h)

    after_win :
        {c : Str × Str}
        → wins name best z ≡ true
        → Settled name z zones c
        → Settled name best (z ∷ zones) c
    after_win won (inl (same, l)) =
        inr (Memᴰ.head same, subst (λ t. has_suffix name t.1 ≡ true) (sym same) (suffix_of won))
    after_win won (inr (m, suffix)) = inr (Memᴰ.tail m, suffix)

none_wins :
    (name : Str) (zones : List (Str × Str))
    → All (λ z. wins name ([], []) z ≡ false) zones
    → All (λ z. has_suffix name z.1 ≡ false) zones
none_wins name zones h = All-map (λ z q. no_suffix z q) zones h
  where
    no_suffix : (z : Str × Str) → wins name ([], []) z ≡ false → has_suffix name z.1 ≡ false
    no_suffix z q = ground (arith, q)

-- EndpointZoneID returns the empty text where no zone's domain is a suffix of the endpoint's name,
-- and else a zone whose domain is a suffix of it, and no shorter than any such domain.
pub endpoint_zone_id_lem :
    (e : Endpoint) (zones : List (Str × Str))
    → ((endpoint_zone_id e zones ≡ []) × All (λ z. has_suffix e.dns_name z.1 ≡ false) zones)
      ⊎ ((best : Str × Str) × (endpoint_zone_id e zones ≡ best.0) × IsLongest e.dns_name zones best)
unfolding endpoint_zone_id
endpoint_zone_id_lem e zones =
    let id = zone_id_from-chosen e.dns_name ([], []) zones in
    elim (chosen_cases e.dns_name ([], []) zones) [
      | inl (same, l) ↦ inl (id ∙ ap (λ t. t.0) same, none_wins e.dns_name zones l)
      | inr (m, suffix) ↦ inr (
        chosen e.dns_name ([], []) zones,
        id,
        (m, suffix, (chosen-le e.dns_name ([], []) zones).1),
      )
    ]
