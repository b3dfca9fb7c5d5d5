-- ===== src/Registry/Merge.antt =====
-- pkg/sources/dnsmesh/txt.go: labels that are read are put among those of a record.
use dns_sync.Base.{
  ◌≡◌, refl, ◌∙◌, Option, none, some, List, [], ◌∷◌, Str, ◌==◌, str_eq, lookup, insert,
  lookup-insert, arith, Bool-cases, inl, inr, beq_refl, split, trim, nat_beq,
}
use dns_sync.Endpoint.{Labels}
use dns_sync.Labels.{add_token, add_tokens, new_labels_from_string_plain}
use dns_sync.Registry.{put_labels}

-- No key stands in the list twice.
abbrev pub IsMap {ℓ} : {V : Type ℓ} → List (Str × V) → Type ℓ
IsMap [] = Unit
IsMap ((k, v) ∷ m) = (lookup k m ≡ none) × IsMap m

module _ {ℓ} {V : Type ℓ} where
  pub insert-IsMap : (k : Str) (v : V) (m : List (Str × V)) → IsMap m → IsMap (insert k v m)
  unfolding insert lookup
  insert-IsMap k v [] h = (refl, tt)
  insert-IsMap k v ((j, w) ∷ m) (p, h) = elim (Bool-cases (j == k)) [
    | inl same ↦ rw same (p, h)
    | inr other ↦ rw other (
      ground (arith, lookup-insert m k j v, p, str_eq.beq_iff j k, str_eq.beq_iff k j),
      insert-IsMap k v m h,
    )
  ]

abbrev pub or_else {ℓ} : {V : Type ℓ} → Option V → Option V → Option V
or_else none o = o
or_else (some v) o = some v

pub lookup-put_labels :
    (k : Str) (l m : Labels)
    → IsMap l
    → lookup k (put_labels m l) ≡ or_else (lookup k l) (lookup k m)
unfolding put_labels lookup
lookup-put_labels k [] m h = refl
lookup-put_labels k ((j, v) ∷ l) m (p, h) = elim (Bool-cases (j == k)) [
  | inl same ↦
      let j-eq-k : j ≡ k = (str_eq.beq_iff j k).0 same in
      lookup-put_labels k l (insert j v m) h
      ∙ rw (same, ← j-eq-k, p, lookup-insert m j j v, beq_refl j) refl
  | inr other ↦
      lookup-put_labels k l (insert j v m) h ∙ rw (other, lookup-insert m j k v, other) refl
]

add_token-IsMap : (m : Labels) (ts : List Str) → IsMap m → IsMap (add_token m ts)
unfolding add_token
add_token-IsMap m [] h = h
add_token-IsMap m (k ∷ []) h = h
add_token-IsMap m (k ∷ v ∷ []) h = insert-IsMap k v m h
add_token-IsMap m (k ∷ v ∷ w ∷ ts) h = h

add_tokens-IsMap : (m : Labels) (ts : List Str) → IsMap m → IsMap (add_tokens m ts)
unfolding add_tokens
add_tokens-IsMap m [] h = h
add_tokens-IsMap m (t ∷ ts) h =
    add_tokens-IsMap (add_token m (split b'=' t)) ts (add_token-IsMap m (split b'=' t) h)

pub new_labels_from_string_plain-IsMap : (s : Str) → IsMap (new_labels_from_string_plain s)
unfolding new_labels_from_string_plain
new_labels_from_string_plain-IsMap s =
    add_tokens-IsMap [] (split b',' (trim (λ c. nat_beq c b'"') s)) tt
