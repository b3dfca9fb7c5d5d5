-- ===== src/Labels/RoundTrip.antt =====
-- endpoint/labels.go: what is read back from a TXT record is what was written.
use dns_sync.Base.{
  any-keep, ℕ, ◌≡◌, refl, ap, ◌∙◌, Bool, true, false, ◌&&◌, not, none, some, List, [], ◌∷◌, map,
  Str, codes, All, All-append, All-map, any, Entries, Entries-lookup, is_some, lookup,
  lookup-insert, beq_refl, str_eq, ◌==◌, nat_beq, split, join, trim, if◌then◌else◌, arith,
  Bool-cases, Option-cases, inl, inr, if_both, Permᴰ, sort_by, sort_by-perm, str_ltb, All-keep,
  All-perm,
}
use mathlib.Core.List.Permᴰ
use dns_sync.Endpoint.{Labels, value_or_empty}
use dns_sync.Labels.{
  add_token, add_tokens, token, written_keys, serialize_plain, new_labels_from_string_plain,
  txt_encryption_nonce,
}
use dns_sync.Labels.Text.{Lacks, split-append, split_one, split-join, trim_none, trim_quoted}

-- The text has none of the bytes that separate labels.
abbrev pub IsPlain : Str → Type 0
IsPlain s = Lacks b',' s × Lacks b'=' s × Lacks b'"' s

abbrev pub IsPlainLabels : Labels → Type 0
IsPlainLabels l = Entries (λ k v. IsPlain k × IsPlain v) l

value-IsPlain : (l : Labels) (k : Str) → IsPlainLabels l → IsPlain (value_or_empty (lookup k l))
value-IsPlain l k h = elim (Option-cases (lookup k l)) [
  | inl missing ↦ rw missing (tt, tt, tt)
  | inr (v, found) ↦ rw found (Entries-lookup (λ k v. IsPlain k × IsPlain v) k l found h).1
]

split-token :
    (l : Labels) (k : Str)
    → IsPlainLabels l
    → IsPlain k
    → split b'=' (token l k) ≡ k ∷ value_or_empty (lookup k l) ∷ []
unfolding token
split-token l k h (p, q, r) =
    split-append b'=' k _ q ∙ ap (λ t. k ∷ t) (split_one b'=' _ (value-IsPlain l k h).1)

-- The labels that reading the tokens of the keys gives
lookup-add_tokens :
    (l : Labels) (k : Str) (ks : List Str) (m : Labels)
    → IsPlainLabels l
    → All IsPlain ks
    → lookup k (add_tokens m (map (token l) ks))
      ≡ (if any (λ j. j == k) ks then some (value_or_empty (lookup k l)) else lookup k m)
unfolding add_tokens add_token
lookup-add_tokens l k [] m h p = refl
lookup-add_tokens l k (j ∷ ks) m h (p, ps) =
    ap (λ ts. lookup k (add_tokens (add_token m ts) (map (token l) ks))) (split-token l j h p)
    ∙ lookup-add_tokens l k ks (add_token m (j ∷ value_or_empty (lookup j l) ∷ [])) h ps
    ∙ added
  where
    added :
        (if any (λ i. i == k) ks
          then some (value_or_empty (lookup k l))
          else lookup k (add_token m (j ∷ value_or_empty (lookup j l) ∷ [])))
        ≡ (if any (λ i. i == k) (j ∷ ks) then some (value_or_empty (lookup k l)) else lookup k m)
    added = elim (Bool-cases (j == k)) [
      | inl same ↦
          rw
            (
              (str_eq.beq_iff j k).0 same,
              lookup-insert m k k (value_or_empty (lookup k l)),
              beq_refl k,
            )
            (if_both (λ o. o ≡ some (value_or_empty (lookup k l))) (any (λ i. i == k) ks) refl refl)
      | inr other ↦ rw (lookup-insert m j k (value_or_empty (lookup j l)), other) refl
    ]

any-map-lookup :
    (l : Labels) (k : Str) → any (λ j. j == k) (map (λ t. t.0) l) ≡ is_some (lookup k l)
unfolding lookup
any-map-lookup [] k = refl
any-map-lookup ((j, v) ∷ l) k = ground (arith, any-map-lookup l k)

any-perm : (p : Str → Bool) {xs ys : List Str} → Permᴰ xs ys → any p xs ≡ any p ys
any-perm p Permᴰ.nil = refl
any-perm p (Permᴰ.cons e d) = rw (e, any-perm p d) refl
any-perm p (Permᴰ.swap e d) = rw (e, d) (ground arith)
any-perm p (Permᴰ.trans d e) = any-perm p d ∙ any-perm p e

any-written_keys :
    (l : Labels) (k : Str)
    → any (λ j. j == k) (written_keys l) ≡ (not (k == txt_encryption_nonce) && is_some (lookup k l))
unfolding written_keys
any-written_keys l k =
    any-keep (λ j. not (j == txt_encryption_nonce)) k (sort_by str_ltb (map (λ t. t.0) l))
    ∙ ap (λ b. not (k == txt_encryption_nonce) && b)
        (any-perm (λ j. j == k) (sort_by-perm str_ltb (map (λ t. t.0) l)) ∙ any-map-lookup l k)

keys-IsPlain : (l : Labels) → IsPlainLabels l → All IsPlain (map (λ t. t.0) l)
keys-IsPlain [] h = tt
keys-IsPlain ((k, v) ∷ l) ((p, q), h) = (p, keys-IsPlain l h)

written_keys-IsPlain : (l : Labels) → IsPlainLabels l → All IsPlain (written_keys l)
unfolding written_keys
written_keys-IsPlain l h =
    All-keep IsPlain _ _ (All-perm IsPlain (Permᴰ.symm (sort_by-perm str_ltb _)) (keys-IsPlain l h))

token-Lacks :
    (c : ℕ) (l : Labels) (ks : List Str)
    → nat_beq b'=' c ≡ false
    → All (λ k. Lacks c k × Lacks c (value_or_empty (lookup k l))) ks
    → All (Lacks c) (map (token l) ks)
unfolding token
token-Lacks c l [] e h = tt
token-Lacks c l (k ∷ ks) e ((p, q), h) = (All-append _ k _ p (e, q), token-Lacks c l ks e h)

join-Lacks :
    (c : ℕ) (ws : List Str)
    → nat_beq b',' c ≡ false
    → All (Lacks c) ws
    → Lacks c (join (codes ",") ws)
unfolding join
join-Lacks c [] e h = tt
join-Lacks c (w ∷ []) e (p, h) = p
join-Lacks c (w ∷ v ∷ ws) e (p, h) = All-append _ w _ p (e, join-Lacks c (v ∷ ws) e h)

tokens-read :
    (ws : List Str)
    → All (Lacks b',') ws
    → add_tokens [] (split b',' (join (codes ",") ws)) ≡ add_tokens [] ws
unfolding add_tokens add_token split join
tokens-read [] h = refl
tokens-read (w ∷ ws) (p, h) = ap (add_tokens []) (split-join b',' w ws p h)

-- For labels with keys and values without the bytes `,`, `=` and `"`, what is read back, with or without quotes, is what
-- was written, except for the nonce, which is not written.
pub new_labels_from_string_plain-serialize_plain :
    (q : Bool) (l : Labels) (k : Str)
    → IsPlainLabels l
    → lookup k (new_labels_from_string_plain (serialize_plain q l))
      ≡ (if k == txt_encryption_nonce then none else lookup k l)
unfolding new_labels_from_string_plain serialize_plain lookup
new_labels_from_string_plain-serialize_plain q l k h =
    ap (λ t. lookup k (add_tokens [] (split b',' t))) (unquoted q)
    ∙ ap (lookup k) (tokens-read (map (token l) (written_keys l)) (lacks b',' refl (λ s p. p.0)))
    ∙ lookup-add_tokens l k (written_keys l) [] h (written_keys-IsPlain l h)
    ∙ ap (λ b. if b then some (value_or_empty (lookup k l)) else none) (any-written_keys l k)
    ∙ written
  where
    lacks :
        (c : ℕ)
        → nat_beq b'=' c ≡ false
        → ((s : Str) → IsPlain s → Lacks c s)
        → All (Lacks c) (map (token l) (written_keys l))
    lacks c e f =
        token-Lacks c l (written_keys l) e
          (All-map (λ s p. (f s p, f _ (value-IsPlain l s h))) _ (written_keys-IsPlain l h))

    unquoted :
        (q : Bool)
        → trim (λ c. nat_beq c b'"') (serialize_plain q l)
          ≡ join (codes ",") (map (token l) (written_keys l))
    unquoted true = trim_quoted b'"' _ (join-Lacks b'"' _ refl (lacks b'"' refl (λ s p. p.2)))
    unquoted false = trim_none b'"' _ (join-Lacks b'"' _ refl (lacks b'"' refl (λ s p. p.2)))

    written :
        (if not (k == txt_encryption_nonce) && is_some (lookup k l)
          then some (value_or_empty (lookup k l))
          else none)
        ≡ (if k == txt_encryption_nonce then none else lookup k l)
    written = elim (Option-cases (lookup k l)) [
      | inl missing ↦ rw missing (ground arith)
      | inr (v, found) ↦ rw found (ground arith)
    ]
