-- ===== src/Provider/Helpers.antt =====
-- provider/provider.go, provider/zonefinder.go and provider/recordfilter.go: what providers share.
pub mod Zone
pub mod Diff
use mathlib.Core.List.Permᴰ
use dns_sync.Base.{
  Permᴰ, any-keep, beq_refl, ◌≡◌, ◌↔◌, ℕ, ◌≤◌, refl, Bool, true, false, ◌&&◌, ◌||◌, not, List, [],
  ◌∷◌, ◌++◌, Str, codes, ◌==◌, str_eq, any, length, ltb, has_suffix, keep, if◌then◌else◌, ◌⊎◌, inl,
  inr, All, Memᴰ, Bool-cases, arith, trim_suffix, Option, none, some, is_some, subst, sym, ap, ◌∙◌,
}

-- `SupportedRecordType`
unfoldable pub supported_record_type : Str → Bool
supported_record_type ty =
    any (λ t. ty == t)
      (codes "A" ∷ codes "AAAA" ∷ codes "CNAME" ∷ codes "SRV" ∷ codes "TXT" ∷ codes "NS" ∷ [])

-- `EnsureTrailingDot`, where the caller says whether `net.ParseIP` takes the text for an address
unfoldable pub ensure_trailing_dot : (Str → Bool) → Str → Str
ensure_trailing_dot is_ip hostname =
    if is_ip hostname then hostname else trim_suffix b'.' hostname ++ codes "."

-- `delete(index, x)`, on the set of texts not yet met
unfoldable pub remove_text : Str → List Str → List Str
remove_text x index = keep (λ y. not (y == x)) index

-- The loop of `Difference` over the desired texts: what is added, and what is left, with the rest
-- of the index
unfoldable pub compare_texts : List Str → List Str → List Str × List Str × List Str
unfolding remove_text
compare_texts index [] = ([], index, [])
compare_texts index (x ∷ desired) =
    let rest = compare_texts (remove_text x index) desired in
    if any (λ y. y == x) index then (rest.0, rest.1, x ∷ rest.2) else (x ∷ rest.0, rest.1, rest.2)

-- `Difference`: added, removed and left, for the current texts as a set, in the order in which the
-- map gives what is removed
unfoldable pub difference : List Str → List Str → List Str × List Str × List Str
unfolding compare_texts
difference current desired = compare_texts current desired

-- The condition of `FindZone`
unfoldable pub in_zone : Str → Str → Bool
in_zone hostname zone = hostname == zone || has_suffix hostname (codes "." ++ zone)

abbrev pub is_empty : Str → Bool
is_empty [] = true
is_empty (c ∷ s) = false

-- The loop of `FindZone` over the zones in the order in which the map gives them
unfoldable pub find_from : Str → Str × Str → List (Str × Str) → Str × Str
find_from hostname best [] = best
find_from hostname best ((id, name) ∷ zones) =
    find_from hostname
      (if in_zone hostname name && (is_empty best.1 || ltb (length best.1) (length name))
        then (id, name)
        else best)
      zones

-- `FindZone`
unfoldable pub find_zone : List (Str × Str) → Str → Str × Str
find_zone zones hostname = find_from hostname ([], []) zones
