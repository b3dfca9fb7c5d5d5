-- ===== src/Labels.antt =====
-- endpoint/labels.go: labels as the text of a TXT record.
pub mod Text
pub mod RoundTrip
use dns_sync.Base.{
  Bool, Option, none, some, List, [], ◌∷◌, ◌++◌, Str, codes, length, ◌==◌, nat_eq, str_eq, map,
  keep, not, lookup, insert, split, join, trim, str_ltb, sort_by, nat_beq, if◌then◌else◌,
}
use dns_sync.Endpoint.{Labels, value_or_empty}

abbrev pub txt_encryption_nonce : Str
txt_encryption_nonce = codes "txt-encryption-nonce"

-- `labels[key] = val` for a token `key=val`; a token with no or more than one `=` is passed over.
unfoldable pub add_token : Labels → List Str → Labels
add_token m (k ∷ v ∷ []) = insert k v m
add_token m _ = m

unfoldable pub add_tokens : Labels → List Str → Labels
unfolding add_token
add_tokens m [] = m
add_tokens m (t ∷ ts) = add_tokens (add_token m (split b'=' t)) ts

-- `NewLabelsFromStringPlain`, whose error is always nil
unfoldable pub new_labels_from_string_plain : Str → Labels
unfolding add_tokens trim split
new_labels_from_string_plain text = add_tokens [] (split b',' (trim (λ c. nat_beq c b'"') text))

-- The keys that are written, in their order
unfoldable pub written_keys : Labels → List Str
unfolding sort_by
written_keys l = keep (λ k. not (k == txt_encryption_nonce)) (sort_by str_ltb (map (λ t. t.0) l))

-- `fmt.Sprintf("%s=%s", key, l[key])`
unfoldable pub token : Labels → Str → Str
token l k = k ++ (b'=' ∷ value_or_empty (lookup k l))

-- `l.SerializePlain(withQuotes)`
unfoldable pub serialize_plain : Bool → Labels → Str
unfolding written_keys token join
serialize_plain with_quotes l =
    let text = join (codes ",") (map (token l) (written_keys l)) in
    if with_quotes then b'"' ∷ (text ++ b'"' ∷ []) else text
