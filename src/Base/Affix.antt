-- ===== src/Base/Affix.antt =====
-- What `strings.HasPrefix` and `strings.HasSuffix` find.
use mathlib.Core.Path.{◌≡◌, refl, sym, ap, ◌∙◌}
use mathlib.Core.Logic.{◌↔◌}
use mathlib.Core.Bool.{true}
use mathlib.Core.List.{[], ◌∷◌, ◌++◌, reverse, reverse-append, reverse-reverse}
use native.Mathlib.Omega.{arith}
use dns_sync.Base.Bytes.{Str, has_prefix, has_suffix}

-- The text ends with the other one.
abbrev pub EndsWith : Str → Str → Type 0
EndsWith s t = (p : Str) × (s ≡ p ++ t)

pub rest_of_prefix : (s t : Str) → has_prefix s t ≡ true → (r : Str) × (s ≡ t ++ r)
unfolding has_prefix
rest_of_prefix s [] h = (s, refl)
rest_of_prefix [] (b ∷ t) h = cc
rest_of_prefix (a ∷ s) (b ∷ t) h =
    let (r, e) = rest_of_prefix s t (ground arith) in (r, ground (arith, e))

pub has_prefix-append : (t r : Str) → has_prefix (t ++ r) t ≡ true
unfolding has_prefix
has_prefix-append [] r = refl
has_prefix-append (b ∷ t) r = ground (arith, has_prefix-append t r)

pub has_suffix_iff : (s t : Str) → (has_suffix s t ≡ true) ↔ EndsWith s t
unfolding has_suffix
has_suffix_iff s t = (
  λ h.
      let (r, e) = rest_of_prefix (reverse s) (reverse t) h in
      (
        reverse r,
        sym (reverse-reverse s)
            ∙ ap reverse e
            ∙ reverse-append (reverse t) r
            ∙ ap (λ u. reverse r ++ u) (reverse-reverse t),
      ),
  λ h. let (p, e) = h in rw (e, reverse-append p t) (has_prefix-append (reverse t) (reverse p)),
)
