-- ===== src/Provider/Helpers/Diff.antt =====
-- provider/provider.go: what a difference of two lists of texts consists of.
use mathlib.Core.List.Permᴰ
use dns_sync.Base.{
  Permᴰ, any-keep, ◌≡◌, refl, true, ◌&&◌, not, List, [], ◌∷◌, ◌++◌, Str, ◌==◌, str_eq, any, inl,
  inr, Bool-cases, arith, sym, ap,
}
use dns_sync.Provider.Helpers.{remove_text, compare_texts, difference}

-- What Difference gives for a set of current texts and a list of desired ones: a text is removed where
-- it is current and not desired, left where it is both, and what is added and what is left are the
-- desired texts.
pub record IsDifference (current desired : List Str) (d : List Str × List Str × List Str)
    : Type 0 where
  pub removed :
      (x : Str)
      → any (λ y. y == x) d.1 ≡ (any (λ y. y == x) current && not (any (λ y. y == x) desired))
  pub left :
      (x : Str) → any (λ y. y == x) d.2 ≡ (any (λ y. y == x) current && any (λ y. y == x) desired)
  pub shared : Permᴰ (d.0 ++ d.2) desired

any-remove_text :
    (d x : Str) (index : List Str)
    → any (λ y. y == x) (remove_text d index) ≡ (not (x == d) && any (λ y. y == x) index)
unfolding remove_text
any-remove_text d x index = any-keep (λ y. not (y == d)) x index

same_text : (d x : Str) → (x == d) ≡ (d == x)
same_text d x = ground (arith, str_eq.beq_iff x d, str_eq.beq_iff d x)

any_same :
    (index : List Str) (d x : Str)
    → (d == x) ≡ true
    → any (λ y. y == x) index ≡ any (λ y. y == d) index
any_same index d x h = ap (λ t. any (λ y. y == t) index) (sym ((str_eq.beq_iff d x).0 h))

compare_texts-IsDifference :
    (index desired : List Str) → IsDifference index desired (compare_texts index desired)
unfolding compare_texts
compare_texts-IsDifference index [] = record {
  removed = λ x. ground arith;
  left = λ x. ground arith;
  shared = Permᴰ.nil;
}
compare_texts-IsDifference index (d ∷ desired) =
    let h = compare_texts-IsDifference (remove_text d index) desired in
    elim (Bool-cases (any (λ y. y == d) index)) [
      | inl found ↦ rw found (record {
        removed = λ x. ground (
          arith,
          h.removed x,
          any-remove_text d x index,
          same_text d x,
          any_same index d x,
          found,
        );
        left = λ x.
            ground (
              arith,
              h.left x,
              any-remove_text d x index,
              same_text d x,
              any_same index d x,
              found,
            );
        shared = Permᴰ.trans (Permᴰ.middle d _ _) (Permᴰ.cons refl h.shared);
      })
      | inr missing ↦ rw missing (record {
        removed = λ x. ground (
          arith,
          h.removed x,
          any-remove_text d x index,
          same_text d x,
          any_same index d x,
          missing,
        );
        left = λ x. ground (
          arith,
          h.left x,
          any-remove_text d x index,
          same_text d x,
          any_same index d x,
          missing,
        );
        shared = Permᴰ.cons refl h.shared;
      })
    ]

-- Difference splits the desired texts into those to add and those to leave; it removes the current
-- texts that are not desired, and leaves those that are.
pub difference-IsDifference :
    (current desired : List Str) → IsDifference current desired (difference current desired)
unfolding difference
difference-IsDifference current desired = compare_texts-IsDifference current desired
