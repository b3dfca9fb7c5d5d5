-- ===== src/Source/Gateway/Unique.antt =====
-- What `uniqueTargets` leaves: the same targets, in order, each once.
use dns_sync.Base.{
  ℕ, suc, true, false, List, [], ◌∷◌, Str, str_ltb, ◌==◌, str_eq, str_beq_iff, ◌≡◌, ◌∙◌, inl, inr,
  ◌↔◌, Bool-cases, All, All-map, ltb, length, sort_by, sort_by-perm, Memᴰ, StrictlyAscending,
  Ascending, str_order, sort_by-Ascending, arith, perm_mem,
}
use mathlib.Core.List.Permᴰ
use dns_sync.Source.Gateway.{drop_repeated, keep_first, unique_targets}

-- Every kept item is greater than the item before,
drop_repeated-All :
    (prev : Str) (vs : List Str)
    → Ascending str_ltb (prev ∷ vs)
    → All (λ y. str_ltb prev y ≡ true) (drop_repeated prev vs)
      × StrictlyAscending str_ltb (drop_repeated prev vs)
unfolding drop_repeated
drop_repeated-All prev [] h = (tt, tt)
drop_repeated-All prev (v ∷ vs) ((first, rest), (next, h)) = elim (Bool-cases (v == prev)) [
  | inl same ↦ rw same (drop_repeated-All prev vs (rest, h))
  | inr other ↦
      let (later, strict) = drop_repeated-All v vs (next, h) in
      rw other (
        (
          before other,
          All-map (λ y. str_order.transitive prev v y (before other)) (drop_repeated v vs) later,
        ),
        (later, strict),
      )
]
  where
    before : (v == prev) ≡ false → str_ltb prev v ≡ true
    before other = elim (Bool-cases (str_ltb prev v)) [
      | inl less ↦ less
      | inr not_less ↦
          let same = (str_beq_iff v prev).1 (str_order.total v prev first not_less) in cc
    ]

-- and no item is lost but the repeated ones.
wider : {x u v : Str} {ws : List Str} → Memᴰ x (u ∷ ws) → Memᴰ x (u ∷ v ∷ ws)
wider (Memᴰ.head e) = Memᴰ.head e
wider (Memᴰ.tail m) = Memᴰ.tail (Memᴰ.tail m)

narrower : {x u v : Str} {ws : List Str} → v ≡ u → Memᴰ x (u ∷ v ∷ ws) → Memᴰ x (u ∷ ws)
narrower same (Memᴰ.head e) = Memᴰ.head e
narrower same (Memᴰ.tail (Memᴰ.head e)) = Memᴰ.head (e ∙ same)
narrower same (Memᴰ.tail (Memᴰ.tail m)) = Memᴰ.tail m

under : {x u : Str} {xs ys : List Str} → (Memᴰ x xs → Memᴰ x ys) → Memᴰ x (u ∷ xs) → Memᴰ x (u ∷ ys)
under f (Memᴰ.head e) = Memᴰ.head e
under f (Memᴰ.tail m) = Memᴰ.tail (f m)

mem-drop_repeated :
    (x prev : Str) (vs : List Str) → Memᴰ x (prev ∷ drop_repeated prev vs) ↔ Memᴰ x (prev ∷ vs)
unfolding drop_repeated
mem-drop_repeated x prev [] = (λ m. m, λ m. m)
mem-drop_repeated x prev (v ∷ vs) = elim (Bool-cases (v == prev)) [
  | inl same ↦ rw same (
    λ m. wider ((mem-drop_repeated x prev vs).0 m),
    λ m. (mem-drop_repeated x prev vs).1 (narrower ((str_beq_iff v prev).0 same) m),
  )
  | inr other ↦ rw other (under (mem-drop_repeated x v vs).0, under (mem-drop_repeated x v vs).1)
]

keep_first-StrictlyAscending :
    (ts : List Str) → Ascending str_ltb ts → StrictlyAscending str_ltb (keep_first ts)
keep_first-StrictlyAscending [] h = tt
keep_first-StrictlyAscending (t ∷ ts) h = drop_repeated-All t ts h

mem-keep_first : (x : Str) (ts : List Str) → Memᴰ x (keep_first ts) ↔ Memᴰ x ts
mem-keep_first x [] = (λ m. m, λ m. m)
mem-keep_first x (t ∷ ts) = mem-drop_repeated x t ts

long : (n : ℕ) → ltb (suc (suc n)) 2 ≡ false
long n = ground arith

pub unique_targets-StrictlyAscending :
    (ts : List Str) → StrictlyAscending str_ltb (unique_targets ts)
unfolding unique_targets
unique_targets-StrictlyAscending [] = tt
unique_targets-StrictlyAscending (t ∷ []) = (tt, tt)
unique_targets-StrictlyAscending (t ∷ u ∷ ts) = rw (long (length ts)) (
    keep_first-StrictlyAscending (sort_by str_ltb (t ∷ u ∷ ts))
      (sort_by-Ascending str_ltb str_order (t ∷ u ∷ ts)))

pub mem-unique_targets : (x : Str) (ts : List Str) → Memᴰ x (unique_targets ts) ↔ Memᴰ x ts
unfolding unique_targets
mem-unique_targets x ts = elim (Bool-cases (ltb (length ts) 2)) [
  | inl short ↦ rw short (λ m. m, λ m. m)
  | inr long ↦
      let sorted = sort_by str_ltb ts in
      let perm = sort_by-perm str_ltb ts in
      rw long (
        λ m. perm_mem perm ((mem-keep_first x sorted).0 m),
        λ m. (mem-keep_first x sorted).1 (perm_mem (Permᴰ.symm perm) m),
      )
]
