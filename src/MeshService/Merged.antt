-- ===== src/MeshService/Merged.antt =====
-- What merging keeps of the endpoints of all services.
use mathlib.Core.List.{append_assoc}
use mathlib.Core.List.Permᴰ
use dns_sync.Base.{
  Bool, true, ◌&&◌, Option, some, List, [], ◌∷◌, ◌++◌, Str, ◌==◌, str_eq, str_beq_iff, map, sort_by,
  sort_by-perm, concat_map, ℤ, int_beq, int_beq_iff, All, All-perm, ◌≡◌, refl, ap, sym, ◌∙◌, subst,
  Bool-cases, inl, inr, Permᴰ, arith,
}
use dns_sync.Endpoint.{Endpoint}
use dns_sync.MeshService.Merge.{
  mergeable, with_target, after, merge_after, resource_less, name_less, merge_sorted,
  merge_endpoints,
}

-- What two endpoints that are merged have in common
abbrev pub Origin : Type 0
Origin = (Str × Str) × (Str × ℤ)

abbrev pub origin : Endpoint → Origin
origin e = ((e.dns_name, e.record_type), (e.set_identifier, e.record_ttl))

abbrev pub stated : Origin → Str → Origin × Str
stated o t = (o, t)

-- What an endpoint says: each of its targets, with the name, type, identifier and TTL
abbrev pub says : Endpoint → List (Origin × Str)
says e = map (stated (origin e)) e.targets

abbrev pub HasOneTarget : Endpoint → Type 0
HasOneTarget e = (t : Str) × (e.targets ≡ t ∷ [])

both_true : (a b : Bool) → (a && b) ≡ true → (a ≡ true) × (b ≡ true)
both_true a b e = ground arith

mergeable-origin : (a b : Endpoint) → mergeable a b ≡ true → origin a ≡ origin b
unfolding mergeable
mergeable-origin a b e =
    let (name, rest) =
      both_true (a.dns_name == b.dns_name)
        (a.record_type == b.record_type
          && (a.set_identifier == b.set_identifier && int_beq a.record_ttl b.record_ttl))
        e in
    let (type, last) =
      both_true (a.record_type == b.record_type)
        (a.set_identifier == b.set_identifier && int_beq a.record_ttl b.record_ttl) rest in
    let (set, ttl) =
      both_true (a.set_identifier == b.set_identifier) (int_beq a.record_ttl b.record_ttl) last in
    ap (λ n. ((n, a.record_type), (a.set_identifier, a.record_ttl)))
      ((str_beq_iff a.dns_name b.dns_name).0 name)
    ∙ ap (λ n. ((b.dns_name, n), (a.set_identifier, a.record_ttl)))
        ((str_beq_iff a.record_type b.record_type).0 type)
    ∙ ap (λ n. ((b.dns_name, b.record_type), (n, a.record_ttl)))
        ((str_beq_iff a.set_identifier b.set_identifier).0 set)
    ∙ ap (λ n. ((b.dns_name, b.record_type), (b.set_identifier, n)))
        ((int_beq_iff a.record_ttl b.record_ttl).0 ttl)

map_snoc :
    (o : Origin) (ts : List Str) (t : Str)
    → map (stated o) (ts ++ t ∷ []) ≡ map (stated o) ts ++ (o, t) ∷ []
map_snoc o [] t = refl
map_snoc o (u ∷ ts) t = ap (λ xs. (o, u) ∷ xs) (map_snoc o ts t)

-- A result that says what a list says
abbrev Merges : List (Origin × Str) → Option (List Endpoint) → Type 0
Merges said r = (ms : List Endpoint) × ((r ≡ some ms) × (concat_map says ms ≡ said))

Merges-after :
    (last : Endpoint) (said : List (Origin × Str)) (r : Option (List Endpoint))
    → Merges said r
    → Merges (says last ++ said) (after last r)
Merges-after last said r (ms, (e, s)) =
    (last ∷ ms, (ap (after last) e, ap (λ xs. says last ++ xs) s))

merge_after-Merges :
    (es : List Endpoint)
    → All HasOneTarget es
    → (last : Endpoint) → Merges (says last ++ concat_map says es) (merge_after last es)
unfolding merge_after
merge_after-Merges [] h last = (last ∷ [], (refl, refl))
merge_after-Merges (e ∷ es) ((t, one), h) last = elim (Bool-cases (mergeable last e)) [
  | inr apart ↦ rw apart (
      Merges-after last (says e ++ concat_map says es) (merge_after e es)
        (merge_after-Merges es h e))
  | inl same ↦
      rw (same, one)
        (subst (λ said. Merges said (merge_after (with_target last t) es)) (joined same)
          (merge_after-Merges es h (with_target last t)))
]
  where
    joined :
        mergeable last e ≡ true
        → says (with_target last t) ++ concat_map says es
          ≡ says last ++ (map (stated (origin e)) (t ∷ []) ++ concat_map says es)
    joined same =
        ap (λ xs. xs ++ concat_map says es) (map_snoc (origin last) last.targets t)
        ∙ append_assoc (says last) ((origin last, t) ∷ []) (concat_map says es)
        ∙ ap (λ o. says last ++ ((o, t) ∷ concat_map says es)) (mergeable-origin last e same)

exchanged : {B : Type 0} (xs ys zs : List B) → Permᴰ (xs ++ (ys ++ zs)) (ys ++ (xs ++ zs))
exchanged xs ys zs =
    subst (λ l. Permᴰ l (ys ++ (xs ++ zs))) (append_assoc xs ys zs)
      (subst (λ l. Permᴰ ((xs ++ ys) ++ zs) l) (append_assoc ys xs zs)
        (Permᴰ.append_right zs (Permᴰ.append_comm xs ys)))

perm_concat_map :
    {A B : Type 0} (f : A → List B) {xs ys : List A}
    → Permᴰ xs ys
    → Permᴰ (concat_map f xs) (concat_map f ys)
perm_concat_map f Permᴰ.nil = Permᴰ.nil
perm_concat_map f (Permᴰ.cons {b} {l₁} {l₂} e p) =
    subst (λ a. Permᴰ (f a ++ concat_map f l₁) (f b ++ concat_map f l₂)) (sym e)
      (Permᴰ.append_left (f b) (perm_concat_map f p))
perm_concat_map f (Permᴰ.swap {a} {b} {b'} {l} e d) =
    subst (λ x. Permᴰ (f a ++ (f b ++ concat_map f l)) (f x ++ (f b' ++ concat_map f l))) d
      (subst (λ x. Permᴰ (f a ++ (f b ++ concat_map f l)) (f b ++ (f x ++ concat_map f l))) e
        (exchanged (f a) (f b) (concat_map f l)))
perm_concat_map f (Permᴰ.trans p q) = Permᴰ.trans (perm_concat_map f p) (perm_concat_map f q)

merge_sorted-Merges :
    (es : List Endpoint) → All HasOneTarget es → Merges (concat_map says es) (merge_sorted es)
merge_sorted-Merges [] h = ([], (refl, refl))
merge_sorted-Merges (e ∷ es) (one, h) = merge_after-Merges es h e

-- Where each endpoint has one target, merging does not panic, and what it returns says the same: the
-- same targets, each as often under the same name, type, set identifier and TTL, in another order.
pub merge_endpoints-perm :
    (es : List Endpoint)
    → All HasOneTarget es
    → (ms : List Endpoint) × ((merge_endpoints es ≡ some ms)
        × Permᴰ (concat_map says ms) (concat_map says es))
unfolding merge_endpoints
merge_endpoints-perm es h =
    let sorted = sort_by name_less (sort_by resource_less es) in
    let perm =
      Permᴰ.trans (sort_by-perm name_less (sort_by resource_less es))
        (sort_by-perm resource_less es) in
    let (ms, (e, s)) = merge_sorted-Merges sorted (All-perm HasOneTarget (Permᴰ.symm perm) h) in
    (ms, (e, subst (λ xs. Permᴰ xs (concat_map says es)) (sym s) (perm_concat_map says perm)))
