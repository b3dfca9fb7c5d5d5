-- ===== src/Base/Maps.antt =====
-- Go's maps as association lists, each key at most once, in the order of insertion.
use mathlib.Core.Path.{◌≡◌, refl, sym, subst, ap, ◌∙◌}
use mathlib.Core.Logic.{inl, inr}
use mathlib.Core.Bool.{Bool, true, false, ◌&&◌}
use mathlib.Core.Option
use mathlib.Core.Option.{Option, none, some, some-injective}
use mathlib.Core.List.{List, [], ◌∷◌, ◌++◌, map, append_assoc, append-nil}
use native.Mathlib.Omega.{arith}
use dns_sync.Base.Tests.{Option-cases, or_default, if◌then◌else◌, if_both, Bool-cases, is_some}
use dns_sync.Base.Lists.{any, keep}
use dns_sync.Base.Eq.{EqTest, ◌==◌}

-- The value that a change leaves
abbrev pub changed {ℓ} : {V : Type ℓ} → (V → V) → Option V → Option V
changed f none = none
changed f (some v) = some (f v)

module _ {ℓ κ} {K : Type ℓ} {V : Type κ} ⦃e : EqTest K⦄ where
  -- `delete(m, k)`
  unfoldable pub delete : K → List (K × V) → List (K × V)
  delete k [] = []
  delete k ((j, w) ∷ m) = let rest = delete k m in if j == k then rest else (j, w) ∷ rest

  -- `m[k]`, with `none` where the key is missing
  unfoldable pub lookup : K → List (K × V) → Option V
  lookup key [] = none
  lookup key ((j, v) ∷ rest) = if j == key then some v else lookup key rest

  -- A change of the value behind the pointer `m[k]`.
  unfoldable pub modify : K → (V → V) → List (K × V) → List (K × V)
  modify k f [] = []
  modify k f ((j, w) ∷ m) = if j == k then (j, f w) ∷ m else (j, w) ∷ modify k f m

  -- `m[k] = v`
  unfoldable pub insert : K → V → List (K × V) → List (K × V)
  insert key new [] = (key, new) ∷ []
  insert key new (entry ∷ rest) =
      if entry.0 == key then (entry.0, new) ∷ rest else entry ∷ insert key new rest

  -- The map with the key, a first value put in where the key was missing
  unfoldable pub ensure : K → V → List (K × V) → List (K × V)
  ensure k v m = if is_some (lookup k m) then m else insert k v m

  pub lookup-delete :
      (k j : K) (m : List (K × V)) → lookup j (delete k m) ≡ (if k == j then none else lookup j m)
  unfolding lookup delete
  lookup-delete k j [] = ground arith
  lookup-delete k j ((i, w) ∷ m) =
      ground (arith, e.beq_iff k j, e.beq_iff i k, e.beq_iff i j, lookup-delete k j m)

  pub lookup-modify :
      (k j : K) (f : V → V) (m : List (K × V))
      → lookup j (modify k f m) ≡ (if k == j then changed f (lookup j m) else lookup j m)
  unfolding lookup modify
  lookup-modify k j f [] = ground arith
  lookup-modify k j f ((i, w) ∷ m) =
      ground (arith, lookup-modify k j f m, e.beq_iff i j, e.beq_iff k j, e.beq_iff i k)

  pub lookup-insert :
      (m : List (K × V)) (k j : K) (v : V)
      → lookup j (insert k v m) ≡ (if k == j then some v else lookup j m)
  unfolding insert lookup
  lookup-insert [] k j v = refl
  lookup-insert ((i, w) ∷ rest) k j v =
      ground (arith, lookup-insert rest k j v, e.beq_iff i j, e.beq_iff k j, e.beq_iff i k)

module _ {ℓ κ} {K : Type ℓ} {V : Type κ} ⦃e : EqTest K⦄ where
  pub lookup-ensure :
      (k j : K) (v : V) (m : List (K × V))
      → lookup j (ensure k v m) ≡ (if k == j then some (or_default v (lookup k m)) else lookup j m)
  unfolding ensure
  lookup-ensure k j v m = elim (Option-cases (lookup k m)) [
    | inl missing ↦ rw missing (lookup-insert m k j v)
    | inr (w, found) ↦ rw found (kept w found)
  ]
    where
      kept : (w : V) → lookup k m ≡ some w → lookup j m ≡ (if k == j then some w else lookup j m)
      kept w found = elim (Bool-cases (k == j)) [
        | inl same ↦ rw same (subst (λ i. lookup i m ≡ some w) ((e.beq_iff k j).0 same) found)
        | inr other ↦ rw other refl
      ]

module _ {ℓ κ μ} {K : Type ℓ} {V : Type κ} {W : Type μ} ⦃e : EqTest K⦄ where
  -- A map with each of its values replaced
  pub lookup-map :
      (f : V → W) (k : K) (m : List (K × V))
      → lookup k (map (λ t. (t.0, f t.1)) m) ≡ Option.map f (lookup k m)
  unfolding lookup
  lookup-map f k [] = refl
  lookup-map f k ((j, v) ∷ m) = elim (Bool-cases (j == k)) [
    | inl same ↦ rw same refl
    | inr other ↦ rw other (lookup-map f k m)
  ]

module _ {ℓ} {K : Type ℓ} ⦃e : EqTest K⦄ where
  pub beq_refl : (k : K) → (k == k) ≡ true
  beq_refl k = (e.beq_iff k k).1 refl

  pub any-keep :
      (q : K → Bool) (k : K) (xs : List K)
      → any (λ j. j == k) (keep q xs) ≡ (q k && any (λ j. j == k) xs)
  any-keep q k [] = ground arith
  any-keep q k (x ∷ xs) = elim (Bool-cases (x == k)) [
    | inl same ↦ rw (same, (e.beq_iff x k).0 same) (ground (arith, any-keep q k xs, beq_refl k))
    | inr other ↦ rw other (ground (arith, any-keep q k xs))
  ]

-- `m[k] = append(m[k], vs...)`
module _ {ℓ κ} {K : Type ℓ} {A : Type κ} ⦃e : EqTest K⦄ where
  unfoldable pub append_to : K → List A → List (K × List A) → List (K × List A)
  append_to k vs m = insert k (or_default [] (lookup k m) ++ vs) m

  pub lookup-append_to :
      (k j : K) (vs : List A) (m : List (K × List A))
      → or_default [] (lookup j (append_to k vs m))
        ≡ (if k == j then or_default [] (lookup k m) ++ vs else or_default [] (lookup j m))
  unfolding append_to
  lookup-append_to k j vs m =
      ap (or_default []) (lookup-insert m k j (or_default [] (lookup k m) ++ vs))
      ∙ if_default (k == j)
    where
      if_default :
          (b : Bool)
          → or_default [] (if b then some (or_default [] (lookup k m) ++ vs) else lookup j m)
            ≡ (if b then or_default [] (lookup k m) ++ vs else or_default [] (lookup j m))
      if_default true = refl
      if_default false = refl

  -- The appends of a loop, one after the other
  abbrev pub append_each : List (K × A) → List (K × List A) → List (K × List A)
  append_each [] m = m
  append_each ((k, v) ∷ claims) m = append_each claims (append_to k (v ∷ []) m)

  pub append_each-append :
      (cs ds : List (K × A)) (m : List (K × List A))
      → append_each (cs ++ ds) m ≡ append_each ds (append_each cs m)
  append_each-append [] ds m = refl
  append_each-append ((k, v) ∷ cs) ds m = append_each-append cs ds (append_to k (v ∷ []) m)

  -- A loop that appends leaves under a key what it appended there, in order.
  pub lookup-append_each :
      (j : K) (cs : List (K × A)) (m : List (K × List A))
      → or_default [] (lookup j (append_each cs m))
        ≡ or_default [] (lookup j m) ++ map (λ c. c.1) (keep (λ c. c.0 == j) cs)
  lookup-append_each j [] m = sym (append-nil (or_default [] (lookup j m)))
  lookup-append_each j ((k, v) ∷ cs) m =
      lookup-append_each j cs (append_to k (v ∷ []) m)
      ∙ ap (λ vs. vs ++ map (λ c. c.1) (keep (λ c. c.0 == j) cs)) (lookup-append_to k j (v ∷ []) m)
      ∙ elim (Bool-cases (k == j)) [
        | inl same ↦
            rw (same, (e.beq_iff k j).0 same)
              (append_assoc (or_default [] (lookup j m)) (v ∷ [])
                (map (λ c. c.1) (keep (λ c. c.0 == j) cs)))
        | inr other ↦ rw other refl
      ]

-- What holds of every entry of a map, and stays so.
abbrev pub Entries {ℓ κ μ} : {K : Type ℓ} {V : Type κ} (P : K → V → Type μ) → List (K × V) → Type μ
Entries P [] = Unit
Entries P ((k, v) ∷ m) = P k v × Entries P m

module _ {ℓ κ μ} {K : Type ℓ} {V : Type κ} ⦃e : EqTest K⦄ (P : K → V → Type μ) where
  pub Entries-modify :
      (k : K) (f : V → V) (m : List (K × V))
      → ((v : V) → P k v → P k (f v))
      → Entries P m
      → Entries P (modify k f m)
  unfolding modify
  Entries-modify k f [] step h = tt
  Entries-modify k f ((j, w) ∷ m) step (p, h) = elim (Bool-cases (j == k)) [
    | inl same ↦
        let j-eq-k : j ≡ k = (e.beq_iff j k).0 same in
        rw same (subst (λ i. P i (f w)) (sym j-eq-k) (step w (subst (λ i. P i w) j-eq-k p)), h)
    | inr other ↦ rw other (p, Entries-modify k f m step h)
  ]

  pub Entries-insert :
      (k : K) (v : V) (m : List (K × V)) → P k v → Entries P m → Entries P (insert k v m)
  unfolding insert
  Entries-insert k v [] p h = (p, tt)
  Entries-insert k v ((j, w) ∷ m) p (q, h) = elim (Bool-cases (j == k)) [
    | inl same ↦ rw same (subst (λ i. P i v) (sym ((e.beq_iff j k).0 same)) p, h)
    | inr other ↦ rw other (q, Entries-insert k v m p h)
  ]

  pub Entries-ensure :
      (k : K) (v : V) (m : List (K × V)) → P k v → Entries P m → Entries P (ensure k v m)
  unfolding ensure
  Entries-ensure k v m p h = if_both (Entries P) (is_some (lookup k m)) h (Entries-insert k v m p h)

  pub Entries-lookup :
      (k : K) {v : V} (m : List (K × V)) → lookup k m ≡ some v → Entries P m → P k v
  unfolding lookup
  Entries-lookup k [] found h = cc
  Entries-lookup k {v} ((j, w) ∷ m) found (p, h) = elim (Bool-cases (j == k)) [
    | inl same ↦
        subst (P k) (some-injective w v (rw same at found))
          (subst (λ i. P i w) ((e.beq_iff j k).0 same) p)
    | inr other ↦ Entries-lookup k m (rw other at found) h
  ]
