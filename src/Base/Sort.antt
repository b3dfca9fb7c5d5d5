-- ===== src/Base/Sort.antt =====
-- Package sort's insertion sort, which both Sort and Stable use on short slices: an item moves to
-- the left while it is less than its neighbour.
use mathlib.Core.Path.{refl}
use mathlib.Core.Logic.{inl, inr}
use mathlib.Core.Bool.{Bool}
use mathlib.Core.List.{List, [], ◌∷◌, ◌++◌, reverse, Permᴰ}
use mathlib.Core.List.Permᴰ
use dns_sync.Base.Tests.{Bool-cases, if◌then◌else◌}

module _ {ℓ} {A : Type ℓ} (less : A → A → Bool) where
  -- One item into the sorted part, which is held from its right end.
  unfoldable pub insert_by : A → List A → List A
  insert_by x [] = x ∷ []
  insert_by x (p ∷ ps) = if less x p then p ∷ insert_by x ps else x ∷ p ∷ ps

  unfoldable pub sort_from : List A → List A → List A
  sort_from sorted [] = reverse sorted
  sort_from sorted (x ∷ xs) = sort_from (insert_by x sorted) xs

  unfoldable pub sort_by : List A → List A
  unfolding insert_by sort_from
  sort_by xs = sort_from [] xs

  pub insert_by-perm : (x : A) (ps : List A) → Permᴰ (insert_by x ps) (x ∷ ps)
  unfolding insert_by
  insert_by-perm x [] = Permᴰ.refl (x ∷ [])
  insert_by-perm x (p ∷ ps) = elim (Bool-cases (less x p)) [
    | inl before ↦
        rw before (Permᴰ.trans (Permᴰ.cons refl (insert_by-perm x ps)) (Permᴰ.swap refl refl))
    | inr stays ↦ rw stays (Permᴰ.refl (x ∷ p ∷ ps))
  ]

  sort_from-perm : (sorted xs : List A) → Permᴰ (sort_from sorted xs) (xs ++ sorted)
  unfolding sort_from
  sort_from-perm sorted [] = Permᴰ.reverse sorted
  sort_from-perm sorted (x ∷ xs) =
      Permᴰ.trans (sort_from-perm (insert_by x sorted) xs)
        (Permᴰ.trans (Permᴰ.append_left xs (insert_by-perm x sorted)) (Permᴰ.middle x xs sorted))

  -- Sorting permutes, whatever the comparison does.
  pub sort_by-perm : (xs : List A) → Permᴰ (sort_by xs) xs
  unfolding sort_by
  sort_by-perm xs = Permᴰ.trans (sort_from-perm [] xs) (Permᴰ.append-nil xs)
