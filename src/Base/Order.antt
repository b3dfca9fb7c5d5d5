-- ===== src/Base/Order.antt =====
-- The order of strings, and that package sort's insertion sort puts a list in order.
use mathlib.Core.Path.{◌≡◌, refl}
use mathlib.Core.Logic.{inl, inr}
use mathlib.Core.Bool.{Bool, true, false}
use mathlib.Core.List.{List, [], ◌∷◌, reverse_aux}
use mathlib.Core.List.Permᴰ
use native.Mathlib.Omega.{arith}
use dns_sync.Base.Tests.{Bool-cases}
use dns_sync.Base.Lists.{All, All-map, All-perm}
use dns_sync.Base.Bytes.{Str, str_ltb}
use dns_sync.Base.Sort.{insert_by, insert_by-perm, sort_from, sort_by}

pub record IsStrictOrder {ℓ} {A : Type ℓ} (less : A → A → Bool) : Type ℓ where
  pub irreflexive : (x : A) → less x x ≡ false
  pub transitive : (x y z : A) → less x y ≡ true → less y z ≡ true → less x z ≡ true
  pub total : (x y : A) → less x y ≡ false → less y x ≡ false → x ≡ y

module _ {ℓ} {A : Type ℓ} (less : A → A → Bool) where
  -- No item before a smaller one
  abbrev pub Ascending : List A → Type ℓ
  Ascending [] = Unit
  Ascending (x ∷ xs) = All (λ y. less y x ≡ false) xs × Ascending xs

  -- Each item smaller than all after it
  abbrev pub StrictlyAscending : List A → Type ℓ
  StrictlyAscending [] = Unit
  StrictlyAscending (x ∷ xs) = All (λ y. less x y ≡ true) xs × StrictlyAscending xs

  abbrev Descending : List A → Type ℓ
  Descending [] = Unit
  Descending (x ∷ xs) = All (λ y. less x y ≡ false) xs × Descending xs

  module _ (order : IsStrictOrder less) where
    asymmetric : (x y : A) → less x y ≡ true → less y x ≡ false
    asymmetric x y before = elim (Bool-cases (less y x)) [
      | inl after ↦
          let same = order.transitive x y x before after in let never = order.irreflexive x in cc
      | inr fine ↦ fine
    ]

    not_less_trans : (x y z : A) → less x y ≡ false → less y z ≡ false → less x z ≡ false
    not_less_trans x y z a b = elim (Bool-cases (less x z)) [
      | inr fine ↦ fine
      | inl before ↦ elim (Bool-cases (less z y)) [
        | inl c ↦ let less_y = order.transitive x z y before c in cc
        | inr c ↦ let y-eq-z = order.total y z b c in cc
      ]
    ]

    insert_by-Descending : (x : A) (ps : List A) → Descending ps → Descending (insert_by less x ps)
    unfolding insert_by
    insert_by-Descending x [] h = (tt, tt)
    insert_by-Descending x (p ∷ ps) (first, h) = elim (Bool-cases (less x p)) [
      | inl before ↦ rw before (
        All-perm (λ y. less p y ≡ false) (Permᴰ.symm (insert_by-perm less x ps))
            (asymmetric x p before, first),
        insert_by-Descending x ps h,
      )
      | inr stays ↦
          rw stays ((stays, All-map (λ y. not_less_trans x p y stays) ps first), (first, h))
    ]

    reverse_aux-Ascending :
        (ds acc : List A)
        → Descending ds
        → Ascending acc
        → All (λ d. All (λ a. less a d ≡ false) acc) ds
        → Ascending (reverse_aux ds acc)
    reverse_aux-Ascending [] acc h k between = k
    reverse_aux-Ascending (d ∷ ds) acc (first, h) k (now, between) =
        reverse_aux-Ascending ds (d ∷ acc) h (now, k) (joined ds first between)
      where
        joined :
            (es : List A)
            → All (λ y. less d y ≡ false) es
            → All (λ e. All (λ a. less a e ≡ false) acc) es
            → All (λ e. All (λ a. less a e ≡ false) (d ∷ acc)) es
        joined [] a b = tt
        joined (e ∷ es) (a, more) (b, rest) = ((a, b), joined es more rest)

    nothing_between : (ds : List A) → All (λ d. All (λ a. less a d ≡ false) []) ds
    nothing_between [] = tt
    nothing_between (d ∷ ds) = (tt, nothing_between ds)

    sort_from-Ascending :
        (sorted xs : List A) → Descending sorted → Ascending (sort_from less sorted xs)
    unfolding sort_from
    sort_from-Ascending sorted [] h = reverse_aux-Ascending sorted [] h tt (nothing_between sorted)
    sort_from-Ascending sorted (x ∷ xs) h =
        sort_from-Ascending (insert_by less x sorted) xs (insert_by-Descending x sorted h)

    pub sort_by-Ascending : (xs : List A) → Ascending (sort_by less xs)
    unfolding sort_by
    sort_by-Ascending xs = sort_from-Ascending [] xs tt

str_irreflexive : (x : Str) → str_ltb x x ≡ false
unfolding str_ltb
str_irreflexive [] = refl
str_irreflexive (a ∷ s) = ground (arith, str_irreflexive s)

str_transitive : (x y z : Str) → str_ltb x y ≡ true → str_ltb y z ≡ true → str_ltb x z ≡ true
unfolding str_ltb
str_transitive x y [] h k = cc
str_transitive x [] (c ∷ u) h k = cc
str_transitive [] (b ∷ t) (c ∷ u) h k = refl
str_transitive (a ∷ s) (b ∷ t) (c ∷ u) h k = ground (arith, str_transitive s t u)

str_total : (x y : Str) → str_ltb x y ≡ false → str_ltb y x ≡ false → x ≡ y
unfolding str_ltb
str_total [] [] h k = refl
str_total [] (b ∷ t) h k = cc
str_total (a ∷ s) [] h k = cc
str_total (a ∷ s) (b ∷ t) h k = ground (arith, str_total s t)

pub str_order : IsStrictOrder str_ltb
str_order = record { irreflexive = str_irreflexive; transitive = str_transitive; total = str_total }
