-- ===== src/Base/Members.antt =====
-- The members of what loops append, and of what they leave in a map.
use mathlib.Core.Path.{◌≡◌, refl, sym, ap, ◌∙◌, subst}
use mathlib.Core.Logic.{◌↔◌, inl, inr}
use mathlib.Core.Bool.{Bool, true, false}
use mathlib.Core.List.{List, [], ◌∷◌, ◌++◌, map, Memᴰ, Permᴰ}
use dns_sync.Base.Tests.{Bool-cases, if◌then◌else◌}
use dns_sync.Base.Lists.{keep, concat_map}
use dns_sync.Base.Eq.{EqTest, ◌==◌}

module _ {ℓ} {A : Type ℓ} where
  -- The members of a list are those of each of its permutations.
  pub perm_mem : {x : A} {xs ys : List A} → Permᴰ xs ys → Memᴰ x xs → Memᴰ x ys
  perm_mem Permᴰ.nil m = elim m [ ]
  perm_mem (Permᴰ.cons e p) (Memᴰ.head d) = Memᴰ.head (d ∙ e)
  perm_mem (Permᴰ.cons e p) (Memᴰ.tail m) = Memᴰ.tail (perm_mem p m)
  perm_mem (Permᴰ.swap e d) (Memᴰ.head c) = Memᴰ.tail (Memᴰ.head (c ∙ e))
  perm_mem (Permᴰ.swap e d) (Memᴰ.tail (Memᴰ.head c)) = Memᴰ.head (c ∙ d)
  perm_mem (Permᴰ.swap e d) (Memᴰ.tail (Memᴰ.tail m)) = Memᴰ.tail (Memᴰ.tail m)
  perm_mem (Permᴰ.trans p q) m = perm_mem q (perm_mem p m)

  pub mem-append_left : {x : A} {xs : List A} (ys : List A) → Memᴰ x xs → Memᴰ x (xs ++ ys)
  mem-append_left ys (Memᴰ.head e) = Memᴰ.head e
  mem-append_left ys (Memᴰ.tail m) = Memᴰ.tail (mem-append_left ys m)

  pub mem-append_right : {x : A} (xs : List A) {ys : List A} → Memᴰ x ys → Memᴰ x (xs ++ ys)
  mem-append_right [] m = m
  mem-append_right (x ∷ xs) m = Memᴰ.tail (mem-append_right xs m)

  -- A member of a joined list, from one of its parts
  pub mem_append-elim {κ} :
      {P : Type κ} {x : A} (xs ys : List A)
      → (Memᴰ x xs → P)
      → (Memᴰ x ys → P)
      → Memᴰ x (xs ++ ys)
      → P
  mem_append-elim [] ys f g m = g m
  mem_append-elim (y ∷ xs) ys f g (Memᴰ.head e) = f (Memᴰ.head e)
  mem_append-elim (y ∷ xs) ys f g (Memᴰ.tail m) = mem_append-elim xs ys (λ n. f (Memᴰ.tail n)) g m

  pub mem-when :
      {x : A} {xs : List A} (b : Bool) → Memᴰ x (if b then xs else []) ↔ ((b ≡ true) × Memᴰ x xs)
  mem-when true = (λ m. (refl, m), λ t. t.1)
  mem-when false = (λ m. elim m [ ], λ t. let wrong = t.0 in cc)

  pub mem-unless :
      {x : A} {xs : List A} (b : Bool) → Memᴰ x (if b then [] else xs) ↔ ((b ≡ false) × Memᴰ x xs)
  mem-unless true = (λ m. elim m [ ], λ t. let wrong = t.0 in cc)
  mem-unless false = (λ m. (refl, m), λ t. t.1)

module _ {ℓ κ} {A : Type ℓ} {B : Type κ} where
  pub mem-map : (f : A → B) {x : A} {xs : List A} → Memᴰ x xs → Memᴰ (f x) (map f xs)
  mem-map f (Memᴰ.head e) = Memᴰ.head (ap f e)
  mem-map f (Memᴰ.tail m) = Memᴰ.tail (mem-map f m)

  pub mem_map-elim :
      (f : A → B) {y : B} (xs : List A) → Memᴰ y (map f xs) → (x : A) × (Memᴰ x xs × (y ≡ f x))
  mem_map-elim f [] m = elim m [ ]
  mem_map-elim f (x ∷ xs) (Memᴰ.head e) = (x, (Memᴰ.head refl, e))
  mem_map-elim f (x ∷ xs) (Memᴰ.tail m) =
      let (z, (n, e)) = mem_map-elim f xs m in (z, (Memᴰ.tail n, e))

  pub mem-concat_map :
      (f : A → List B) {x : A} {y : B} {xs : List A}
      → Memᴰ x xs
      → Memᴰ y (f x)
      → Memᴰ y (concat_map f xs)
  mem-concat_map f {y} {xs = x ∷ xs} (Memᴰ.head e) n =
      mem-append_left (concat_map f xs) (subst (λ z. Memᴰ y (f z)) e n)
  mem-concat_map f {xs = x ∷ xs} (Memᴰ.tail m) n = mem-append_right (f x) (mem-concat_map f m n)
  mem-concat_map f {xs = []} m n = elim m [ ]

  pub mem_concat_map-elim :
      (f : A → List B) {y : B} (xs : List A)
      → Memᴰ y (concat_map f xs)
      → (x : A) × (Memᴰ x xs × Memᴰ y (f x))
  mem_concat_map-elim f [] m = elim m [ ]
  mem_concat_map-elim f {y} (x ∷ xs) m =
      mem_append-elim (f x) (concat_map f xs) (λ n. (x, (Memᴰ.head refl, n)))
        (λ n. later (mem_concat_map-elim f xs n)) m
    where
      later : (z : A) × (Memᴰ z xs × Memᴰ y (f z)) → (z : A) × (Memᴰ z (x ∷ xs) × Memᴰ y (f z))
      later (z, (n, k)) = (z, (Memᴰ.tail n, k))

module _ {ℓ κ} {K : Type ℓ} {A : Type κ} ⦃e : EqTest K⦄ where
  claimed :
      {k j : K} {a b : A} {cs : List (K × A)} {bs : List A}
      → (j == k) ≡ true
      → (Memᴰ a bs → Memᴰ (k, a) cs)
      → Memᴰ a (b ∷ bs)
      → Memᴰ (k, a) ((j, b) ∷ cs)
  claimed {k} {j} {a} same f (Memᴰ.head d) =
      Memᴰ.head (ap (λ i. (i, a)) (sym ((e.beq_iff j k).0 same)) ∙ ap (λ c. (j, c)) d)
  claimed same f (Memᴰ.tail m) = Memᴰ.tail (f m)

  found :
      {k j : K} {a b : A} {cs : List (K × A)} {bs : List A}
      → (Memᴰ (k, a) cs → Memᴰ a bs)
      → Memᴰ (k, a) ((j, b) ∷ cs)
      → Memᴰ a (b ∷ bs)
  found f (Memᴰ.head d) = Memᴰ.head (ap (λ c. c.1) d)
  found f (Memᴰ.tail m) = Memᴰ.tail (f m)

  skipped :
      {k j : K} {a b : A} {cs : List (K × A)} {bs : List A}
      → (j == k) ≡ false
      → (Memᴰ (k, a) cs → Memᴰ a bs)
      → Memᴰ (k, a) ((j, b) ∷ cs)
      → Memᴰ a bs
  skipped {k} {j} other f (Memᴰ.head d) = let same = (e.beq_iff j k).1 (ap (λ c. c.0) (sym d)) in cc
  skipped other f (Memᴰ.tail m) = f m

  -- What was claimed for a key
  pub mem-claims :
      (k : K) (a : A) (cs : List (K × A))
      → Memᴰ a (map (λ c. c.1) (keep (λ c. c.0 == k) cs)) ↔ Memᴰ (k, a) cs
  mem-claims k a [] = (λ m. elim m [ ], λ m. elim m [ ])
  mem-claims k a ((j, b) ∷ cs) = elim (Bool-cases (j == k)) [
    | inl same ↦
        rw same (λ m. claimed same (mem-claims k a cs).0 m, λ m. found (mem-claims k a cs).1 m)
    | inr other ↦
        rw other
          (λ m. Memᴰ.tail ((mem-claims k a cs).0 m), λ m. skipped other (mem-claims k a cs).1 m)
  ]
