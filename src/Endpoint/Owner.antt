-- ===== src/Endpoint/Owner.antt =====
-- endpoint/endpoint.go: the filter by owner, and the removal of duplicates.
use dns_sync.Base.{
  ◌≡◌, ◌≢◌, ◌↔◌, ◌⊎◌, refl, Bool, true, false, List, [], ◌∷◌, Str, All, All-map, All-members, Memᴰ,
  any, mem_of_mem-keep, mem-keep_of_mem, ◌==◌, str_eq, arith, Bool-cases, if_both, ◌||◌, inl, inr,
  Option, none, some, sym, ap, ◌∙◌,
}
use dns_sync.Endpoint.{
  Endpoint, EndpointKey, endpoint_key_eq, key, label, owner_label_key, is_owned_by, is_value,
  filter_endpoints_by_owner_id, remove_visited, remove_duplicates,
}

-- An endpoint is owned by an id exactly if its owner label is there and is that id.
pub is_owned_by_iff :
    (e : Endpoint) (id : Str) → (is_owned_by e id ≡ true) ↔ (label owner_label_key e ≡ some id)
unfolding is_owned_by
is_owned_by_iff e id = is_value_iff (label owner_label_key e)
  where
    is_value_iff : (o : Option Str) → (is_value o id ≡ true) ↔ (o ≡ some id)
    is_value_iff none = ground arith
    is_value_iff (some v) = ground (arith, str_eq.beq_iff v id)

module _ {ℓ} {A : Type ℓ} (read : A → Endpoint) where
  -- The filter by owner keeps exactly the endpoints whose owner label is the id.
  pub mem-filter_endpoints_by_owner_id :
      (id : Str) (eps : List A) (r : A)
      → Memᴰ r (filter_endpoints_by_owner_id read id eps)
        ↔ (Memᴰ r eps × (label owner_label_key (read r) ≡ some id))
  unfolding filter_endpoints_by_owner_id
  mem-filter_endpoints_by_owner_id id eps r =
      let owned = λ (ep : A). is_owned_by (read ep) id in
      (
        (λ m. let (a, b) = mem_of_mem-keep owned eps m in (a, (is_owned_by_iff (read r) id).0 b)),
        (λ h. mem-keep_of_mem owned h.0 ((is_owned_by_iff (read r) id).1 h.1)),
      )

  abbrev seen : List EndpointKey → A → Bool
  seen visited r = any (λ k. k == key (read r)) visited

  -- No two endpoints of the list have one key.
  abbrev pub Distinct : List A → Type 0
  Distinct [] = Unit
  Distinct (r ∷ rs) = All (λ q. key (read q) ≢ key (read r)) rs × Distinct rs

  remove_visited-All {κ} :
      (P : A → Type κ) (visited : List EndpointKey) (eps : List A)
      → All P eps
      → All P (remove_visited read visited eps)
  unfolding remove_visited
  remove_visited-All P visited [] h = tt
  remove_visited-All P visited (ep ∷ eps) (p, h) =
      if_both (All P) (seen visited ep) (remove_visited-All P visited eps h)
        (p, remove_visited-All P (key (read ep) ∷ visited) eps h)

  or_left : (a b : Bool) → (a || b) ≡ false → a ≡ false
  or_left a b h = ground arith

  or_right : (a b : Bool) → (a || b) ≡ false → b ≡ false
  or_right a b h = ground arith

  -- What is left has a key that was not visited.
  remove_visited-unseen :
      (visited : List EndpointKey) (eps : List A)
      → All (λ q. seen visited q ≡ false) (remove_visited read visited eps)
  unfolding remove_visited
  remove_visited-unseen visited [] = tt
  remove_visited-unseen visited (ep ∷ eps) = elim (Bool-cases (seen visited ep)) [
    | inl again ↦ rw again (remove_visited-unseen visited eps)
    | inr first ↦ rw first (
      first,
      All-map (λ q h. or_right (key (read ep) == key (read q)) (seen visited q) h) _
          (remove_visited-unseen (key (read ep) ∷ visited) eps),
    )
  ]

  new_key :
      (visited : List EndpointKey) (ep q : A)
      → seen (key (read ep) ∷ visited) q ≡ false
      → key (read q) ≢ key (read ep)
  new_key visited ep q h e =
      let found = (endpoint_key_eq.beq_iff (key (read ep)) (key (read q))).1 (sym e) in
      cc (or_left (key (read ep) == key (read q)) (seen visited q) h)

  remove_visited-Distinct :
      (visited : List EndpointKey) (eps : List A) → Distinct (remove_visited read visited eps)
  unfolding remove_visited
  remove_visited-Distinct visited [] = tt
  remove_visited-Distinct visited (ep ∷ eps) =
      if_both Distinct (seen visited ep) (remove_visited-Distinct visited eps) (
        All-map (λ q h. new_key visited ep q h) _
            (remove_visited-unseen (key (read ep) ∷ visited) eps),
        remove_visited-Distinct (key (read ep) ∷ visited) eps,
      )

  -- An endpoint of the same key in a list
  abbrev pub HasKeyOf : A → List A → Type ℓ
  HasKeyOf x rs = (y : A) × Memᴰ y rs × (key (read y) ≡ key (read x))

  after :
      (visited : List EndpointKey) (ep x : A) (rest : List A)
      → (seen (key (read ep) ∷ visited) x ≡ true) ⊎ HasKeyOf x rest
      → (seen visited x ≡ true) ⊎ HasKeyOf x (ep ∷ rest)
  after visited ep x rest (inr (y, m, e)) = inr (y, Memᴰ.tail m, e)
  after visited ep x rest (inl h) = elim (Bool-cases (key (read ep) == key (read x))) [
    | inl same ↦
        inr (ep, Memᴰ.head refl, (endpoint_key_eq.beq_iff (key (read ep)) (key (read x))).0 same)
    | inr other ↦ inl (rw other at h)
  ]

  remove_visited_covers :
      (visited : List EndpointKey) {x : A} (eps : List A)
      → Memᴰ x eps
      → (seen visited x ≡ true) ⊎ HasKeyOf x (remove_visited read visited eps)
  unfolding remove_visited
  remove_visited_covers visited [] m = elim m [ ]
  remove_visited_covers visited {x} (ep ∷ eps) (Memᴰ.head e) = elim (Bool-cases (seen visited ep)) [
    | inl again ↦ inl (ap (seen visited) e ∙ again)
    | inr first ↦ rw first (inr (ep, Memᴰ.head refl, ap (λ a. key (read a)) (sym e)))
  ]
  remove_visited_covers visited {x} (ep ∷ eps) (Memᴰ.tail m) = elim (Bool-cases (seen visited ep)) [
    | inl again ↦ rw again (remove_visited_covers visited eps m)
    | inr first ↦
        rw first (after visited ep x _ (remove_visited_covers (key (read ep) ∷ visited) eps m))
  ]

  -- What holds of every endpoint holds of those that are left.
  pub remove_duplicates-All {κ} :
      (P : A → Type κ) (eps : List A) → All P eps → All P (remove_duplicates read eps)
  unfolding remove_duplicates
  remove_duplicates-All P eps h = remove_visited-All P [] eps h

  -- What stands for a list without its duplicates: endpoints of
  -- the list, no key twice, and every key of the list.
  pub record IsDeduplicated (eps rs : List A) : Type ℓ where
    pub within : All (λ r. Memᴰ r eps) rs
    pub distinct : Distinct rs
    pub covers : (x : A) → Memᴰ x eps → HasKeyOf x rs

  not_seen : (x : A) (rs : List A) → (seen [] x ≡ true) ⊎ HasKeyOf x rs → HasKeyOf x rs
  not_seen x rs (inl h) = cc
  not_seen x rs (inr h) = h

  -- `RemoveDuplicates` returns endpoints of the list, with each key (name, type and set identifier)
  -- of the list exactly once.
  pub remove_duplicates-IsDeduplicated :
      (eps : List A) → IsDeduplicated eps (remove_duplicates read eps)
  unfolding remove_duplicates
  remove_duplicates-IsDeduplicated eps = record {
    within = remove_visited-All (λ r. Memᴰ r eps) [] eps (All-members eps);
    distinct = remove_visited-Distinct [] eps;
    covers = λ x m. not_seen x _ (remove_visited_covers [] eps m);
  }
