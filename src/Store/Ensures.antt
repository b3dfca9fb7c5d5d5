-- ===== src/Store/Ensures.antt =====
-- What an action returns, and an invariant of the store that it keeps.
use dns_sync.Base.{
  ◌≡◌, refl, Bool, true, false, not, List, Str, length, ltb, ◌==◌, nat_eq, if◌then◌else◌,
}
use dns_sync.Targets.{NetIp, same_sorted, is_less_sorted}
use dns_sync.Store.{
  Ref, Store, St, ◌>>=◌, ◌>>◌, pure, read, sort_in_place, sort_both, same, is_less,
}

-- From a store with `I` the action returns a value with `Q` and leaves a store with `I`.
pub record Ensures {ℓ κ} {A : Type ℓ} (I : Store → Type κ) (Q : A → Type κ) (m : St A)
    : Type (ℓ ⊔ κ) where
  pub run : (s : Store) → I s → Q (m s).0 × I (m s).1

module _ {ℓ κ} {A : Type ℓ} {I : Store → Type κ} {Q : A → Type κ} where
  pub Ensures-pure : (a : A) → Q a → Ensures I Q (pure a)
  unfolding pure
  Ensures-pure a q = record { run = λ s h. (q, h) }

  pub Ensures-if :
      (b : Bool) (m n : St A)
      → (b ≡ true → Ensures I Q m)
      → (b ≡ false → Ensures I Q n)
      → Ensures I Q (if b then m else n)
  Ensures-if true m n km kn = km refl
  Ensures-if false m n km kn = kn refl

module _ {ℓ μ κ} {A : Type ℓ} {B : Type μ} {I : Store → Type κ} {Q : A → Type κ}
    {R : B → Type κ} where
  pub Ensures-bind :
      (m : St A) (f : A → St B)
      → Ensures I Q m
      → ((a : A) → Q a → Ensures I R (f a))
      → Ensures I R (m >>= f)
  unfolding ◌>>=◌
  Ensures-bind m f km kf = record {
    run = λ s h. let (q, h') = km.run s h in (kf (m s).0 q).run (m s).1 h';
  }

-- A statement about the value alone says nothing of the result here.
abbrev pub Any {ℓ κ} : {A : Type ℓ} → A → Type κ
Any a = Unit

module _ {κ} {I : Store → Type κ} where
  pub Ensures-read : (r : Ref) → Ensures I Any (read r)
  unfolding read
  Ensures-read r = record { run = λ s h. (tt, h) }

  module _ (net : NetIp) (sorts : (r : Ref) (s : Store) → I s → I (sort_in_place net r s).1) where
    Ensures-sort : (r : Ref) → Ensures I Any (sort_in_place net r)
    Ensures-sort r = record { run = λ s h. (tt, sorts r s h) }

    both : (x y : Ref) (test : List Str → List Str → Bool) → Ensures I Any (sort_both net x y test)
    unfolding sort_both ◌>>◌
    both x y test = Ensures-bind (sort_in_place net x) _ (Ensures-sort x) λ _ _.
        Ensures-bind (sort_in_place net y) _ (Ensures-sort y) λ _ _.
          Ensures-bind (read x) _ (Ensures-read x) λ a _.
            Ensures-bind (read y) _ (Ensures-read y)
              λ b _. Ensures-pure (test a.targets b.targets) tt

    -- Comparing targets keeps whatever sorting them in place keeps.
    pub Ensures-same : (x y : Ref) → Ensures I Any (same net x y)
    unfolding same
    Ensures-same x y = Ensures-bind (read x) _ (Ensures-read x) λ a _.
        Ensures-bind (read y) _ (Ensures-read y) λ b _.
          Ensures-if (not (length a.targets == length b.targets)) _ _ (λ _. Ensures-pure false tt)
            (λ _. both x y (same_sorted net))

    pub Ensures-is_less : (x y : Ref) → Ensures I Any (is_less net x y)
    unfolding is_less
    Ensures-is_less x y = Ensures-bind (read x) _ (Ensures-read x) λ a _.
        Ensures-bind (read y) _ (Ensures-read y) λ b _.
          Ensures-if (ltb (length a.targets) (length b.targets)) _ _ (λ _. Ensures-pure true tt)
            (λ _.
              Ensures-if (ltb (length b.targets) (length a.targets)) _ _
                (λ _. Ensures-pure false tt) (λ _. both x y (is_less_sorted net)))
