-- ===== src/Base/Lists.antt =====
-- Lists measured by native numbers, and predicates on their items.
use Prim.Native.Nat.{ℕ, suc, ◌+◌}
use mathlib.Core.Path.{◌≡◌, refl, sym, ap, ◌∙◌, subst}
use mathlib.Core.Logic.{inl, inr}
use mathlib.Core.Bool.{Bool, true, false, ◌&&◌, ◌||◌}
use mathlib.Core.Option.{Option, none, some}
use mathlib.Core.List.{List, [], ◌∷◌, ◌++◌, reverse, reverse_aux, append_assoc, Memᴰ, Permᴰ}
use native.Mathlib.Omega.{arith}
use dns_sync.Base.Tests.{if◌then◌else◌, Bool-cases}

module _ {ℓ} {A : Type ℓ} where
  abbrev pub length : List A → ℕ
  length [] = 0
  length (x ∷ xs) = suc (length xs)

  pub length-append : (xs ys : List A) → length (xs ++ ys) ≡ length xs + length ys
  length-append [] ys = omega arith
  length-append (x ∷ xs) ys = omega (arith, length-append xs ys)

  length-reverse_aux : (xs ys : List A) → length (reverse_aux xs ys) ≡ length xs + length ys
  length-reverse_aux [] ys = omega arith
  length-reverse_aux (x ∷ xs) ys = omega (arith, length-reverse_aux xs (x ∷ ys))

  pub length-reverse : (xs : List A) → length (reverse xs) ≡ length xs
  length-reverse xs = omega (arith, length-reverse_aux xs [])

  -- The items that pass a test, in their order.
  abbrev pub keep : (A → Bool) → List A → List A
  keep p [] = []
  keep p (x ∷ xs) = let rest = keep p xs in if p x then x ∷ rest else rest

  -- What a loop appends, one item after the other
  abbrev pub concat_map {κ} : {B : Type κ} → (A → List B) → List A → List B
  concat_map f [] = []
  concat_map f (x ∷ xs) = f x ++ concat_map f xs

  abbrev pub any : (A → Bool) → List A → Bool
  any p [] = false
  any p (x ∷ xs) = p x || any p xs

  abbrev pub all : (A → Bool) → List A → Bool
  all p [] = true
  all p (x ∷ xs) = p x && all p xs

module _ {ℓ κ} {A : Type ℓ} where
  abbrev pub All : (A → Type κ) → List A → Type κ
  All P [] = Unit
  All P (x ∷ xs) = P x × All P xs

  -- What holds of the value, if there is one.
  abbrev pub OptAll : (A → Type κ) → Option A → Type κ
  OptAll P none = Unit
  OptAll P (some a) = P a

module _ {ℓ κ} {A : Type ℓ} (P : A → Type κ) where
  pub All-append : (xs ys : List A) → All P xs → All P ys → All P (xs ++ ys)
  All-append [] ys hx hy = hy
  All-append (x ∷ xs) ys (p, hx) hy = (p, All-append xs ys hx hy)

  pub All-snoc : (xs : List A) (y : A) → All P xs → P y → All P (xs ++ y ∷ [])
  All-snoc xs y h p = All-append xs (y ∷ []) h (p, tt)

  pub All-reverse_aux : (xs ys : List A) → All P xs → All P ys → All P (reverse_aux xs ys)
  All-reverse_aux [] ys h k = k
  All-reverse_aux (x ∷ xs) ys (p, h) k = All-reverse_aux xs (x ∷ ys) h (p, k)

  pub All-reverse : (xs : List A) → All P xs → All P (reverse xs)
  All-reverse xs h = All-reverse_aux xs [] h tt

  pub All-keep : (p : A → Bool) (xs : List A) → All P xs → All P (keep p xs)
  All-keep p [] h = tt
  All-keep p (x ∷ xs) (px, h) = ground (arith, All-keep p xs h)

  pub All-perm : {xs ys : List A} → Permᴰ xs ys → All P xs → All P ys
  All-perm Permᴰ.nil h = h
  All-perm (Permᴰ.cons e p) (px, h) = (subst P e px, All-perm p h)
  All-perm (Permᴰ.swap e d) (px, (py, h)) = (subst P d py, (subst P e px, h))
  All-perm (Permᴰ.trans p q) h = All-perm q (All-perm p h)

  pub All-mem : {x : A} (xs : List A) → All P xs → Memᴰ x xs → P x
  All-mem [] h m = elim m [ ]
  All-mem (y ∷ xs) (p, h) (Memᴰ.head e) = subst P (sym e) p
  All-mem (y ∷ xs) (p, h) (Memᴰ.tail m) = All-mem xs h m

module _ {ℓ κ μ} {A : Type ℓ} {P : A → Type κ} {Q : A → Type μ} (f : (x : A) → P x → Q x) where
  pub All-map : (xs : List A) → All P xs → All Q xs
  All-map [] h = tt
  All-map (x ∷ xs) (p, h) = (f x p, All-map xs h)

module _ {ℓ} {A : Type ℓ} where
  -- A list's items are its members.
  pub All-members : (xs : List A) → All (λ x. Memᴰ x xs) xs
  All-members [] = tt
  All-members (x ∷ xs) = (Memᴰ.head refl, All-map (λ y m. Memᴰ.tail m) xs (All-members xs))

  -- What a filter keeps stood in the list and passes the test,
  pub mem_of_mem-keep :
      {x : A} (p : A → Bool) (xs : List A) → Memᴰ x (keep p xs) → Memᴰ x xs × (p x ≡ true)
  mem_of_mem-keep p [] m = elim m [ ]
  mem_of_mem-keep {x} p (y ∷ ys) m = elim (Bool-cases (p y)) [
    | inl passed ↦ first (mem_of_mem-keep p ys) passed (rw passed at m)
    | inr failed ↦ later (mem_of_mem-keep p ys (rw failed at m))
  ]
    where
      later : Memᴰ x ys × (p x ≡ true) → Memᴰ x (y ∷ ys) × (p x ≡ true)
      later (a, b) = (Memᴰ.tail a, b)

      first :
          (Memᴰ x (keep p ys) → Memᴰ x ys × (p x ≡ true))
          → p y ≡ true
          → Memᴰ x (y ∷ keep p ys)
          → Memᴰ x (y ∷ ys) × (p x ≡ true)
      first rest passed (Memᴰ.head e) = (Memᴰ.head e, ap p e ∙ passed)
      first rest passed (Memᴰ.tail n) = later (rest n)

  -- and every such item is kept.
  pub mem-keep_of_mem :
      {x : A} (p : A → Bool) {xs : List A} → Memᴰ x xs → p x ≡ true → Memᴰ x (keep p xs)
  mem-keep_of_mem p {xs = []} m e = elim m [ ]
  mem-keep_of_mem {x} p {xs = y ∷ ys} (Memᴰ.head d) e = rw (← d, e) (Memᴰ.head refl)
  mem-keep_of_mem {x} p {xs = y ∷ ys} (Memᴰ.tail m) e = elim (Bool-cases (p y)) [
    | inl passed ↦ rw passed (Memᴰ.tail (mem-keep_of_mem p m e))
    | inr failed ↦ rw failed (mem-keep_of_mem p m e)
  ]

  -- A test passes on some item just when one is found.
  pub any_of_mem : (x : A) (p : A → Bool) (xs : List A) → Memᴰ x xs → p x ≡ true → any p xs ≡ true
  any_of_mem x p (y ∷ xs) (Memᴰ.head d) e = rw (← d, e)
  any_of_mem x p (y ∷ xs) (Memᴰ.tail m) e = ground (arith, any_of_mem x p xs m e)
  any_of_mem x p [] m e = elim m [ ]

  pub any_found :
      (p : A → Bool) (xs : List A) → any p xs ≡ true → (x : A) × Memᴰ x xs × (p x ≡ true)
  any_found p [] h = cc
  any_found p (y ∷ xs) h = elim (Bool-cases (p y)) [
    | inl passed ↦ (y, Memᴰ.head refl, passed)
    | inr failed ↦ let (x, m, e) = any_found p xs (rw failed at h) in (x, Memᴰ.tail m, e)
  ]

module _ {ℓ κ} {A : Type ℓ} {B : Type κ} where
  pub concat_map-append :
      (f : A → List B) (xs ys : List A)
      → concat_map f (xs ++ ys) ≡ concat_map f xs ++ concat_map f ys
  concat_map-append f [] ys = refl
  concat_map-append f (x ∷ xs) ys =
      ap (λ zs. f x ++ zs) (concat_map-append f xs ys)
      ∙ sym (append_assoc (f x) (concat_map f xs) (concat_map f ys))

  -- A function that goes through a conditional
  pub ap_if : (f : A → B) (b : Bool) (x y : A) → f (if b then x else y) ≡ (if b then f x else f y)
  ap_if f true x y = refl
  ap_if f false x y = refl
