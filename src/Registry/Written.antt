-- ===== src/Registry/Written.antt =====
-- pkg/sources/dnsmesh/txt.go: the TXT records that the registry writes for a batch.
use dns_sync.Base.{
  ◌≡◌, ◌≢◌, refl, sym, ◌∙◌, ap, Bool, true, false, Option, none, some, List, [], ◌∷◌, ◌++◌, map,
  Str, codes, All, All-map, ◌==◌, str_eq, lookup, insert, lookup-insert, if◌then◌else◌, arith,
  Bool-cases, inl, inr, beq_refl, split, join, trim_suffix, any, ltb, length, Entries-insert,
  Entries, pos, pos,
}
use dns_sync.Endpoint.{
  Endpoint, Labels, record_type_txt, owned_record_label_key, new_endpoint, new_endpoint_with_ttl,
}
use dns_sync.Labels.{new_labels_from_string_plain, serialize_plain, txt_encryption_nonce}
use dns_sync.Labels.Text.{trim_suffix-snoc}
use dns_sync.Labels.RoundTrip.{IsPlain, IsPlainLabels, new_labels_from_string_plain-serialize_plain}
use dns_sync.Registry.{kind, text_for, mesh_label_key, own_labels, made, generate_txt_record, claim}

-- What a DNS server keeps of a record: all but its labels.
abbrev pub bare : Endpoint → Endpoint
bare e = record e { labels = none }

-- The endpoint is not a TXT record, its labels have no separators, and its name is one that
-- NewEndpoint takes as it is.
pub record IsStorable (e : Endpoint) : Type 0 where
  pub not_text : (e.record_type == record_type_txt) ≡ false
  pub plain : IsPlainLabels (made e.labels)
  pub short : any (λ l. ltb 63 (length l)) (split b'.' e.dns_name) ≡ false
  pub no_dot : trim_suffix b'.' e.dns_name ≡ e.dns_name

unfoldable pub text : Endpoint → Str
text c = serialize_plain true (made c.labels)

unfoldable pub parsed : Endpoint → Labels
parsed c = new_labels_from_string_plain (text c)

abbrev pub text_record : Endpoint → Endpoint
text_record c = record {
  dns_name = c.dns_name;
  targets = text c ∷ [];
  record_type = record_type_txt;
  set_identifier = c.set_identifier;
  record_ttl = pos 0;
  labels = some ((owned_record_label_key, c.dns_name) ∷ []);
  provider_specific = [];
}

text-trimmed : (c : Endpoint) → trim_suffix b'.' (text c) ≡ text c
unfolding text serialize_plain
text-trimmed c = trim_suffix-snoc b'.' b'"' (b'"' ∷ _) refl

new_endpoint-storable :
    (e : Endpoint) (t : Str)
    → IsStorable e
    → trim_suffix b'.' t ≡ t
    → new_endpoint e.dns_name record_type_txt (t ∷ [])
      ≡ some (record {
        dns_name = e.dns_name;
        targets = t ∷ [];
        record_type = record_type_txt;
        set_identifier = [];
        record_ttl = pos 0;
        labels = some [];
        provider_specific = [];
      })
unfolding new_endpoint new_endpoint_with_ttl
new_endpoint-storable e t h d = rw (h.short, h.no_dot, d) refl

pub generate_txt_record-storable :
    (o : Str) (e : Endpoint)
    → IsStorable e
    → generate_txt_record (claim o e) ≡ text_record (claim o e) ∷ []
unfolding generate_txt_record claim insert text
generate_txt_record-storable o e h =
    ap (text_for (claim o e))
      (new_endpoint-storable e (text (claim o e)) h (text-trimmed (claim o e)))

-- The labels that stand in the TXT record of a claimed endpoint
pub lookup-parsed :
    (o k : Str) (e : Endpoint)
    → IsPlain o
    → IsStorable e
    → lookup k (parsed (claim o e)) ≡ (
        if k == txt_encryption_nonce
        then none
        else lookup k (insert mesh_label_key o (made e.labels)))
unfolding parsed text claim
lookup-parsed o k e p h =
    new_labels_from_string_plain-serialize_plain true (insert mesh_label_key o (made e.labels)) k (
      Entries-insert (λ k v. IsPlain k × IsPlain v) mesh_label_key o (made e.labels)
        (mesh-IsPlain, p) h.plain)
  where
    mesh-IsPlain : IsPlain mesh_label_key
    mesh-IsPlain = (
      (refl, (refl, (refl, (refl, tt)))),
      (refl, (refl, (refl, (refl, tt)))),
      (refl, (refl, (refl, (refl, tt)))),
    )

mesh-parsed :
    (o : Str) (e : Endpoint)
    → IsPlain o
    → IsStorable e
    → lookup mesh_label_key (parsed (claim o e)) ≡ some o
unfolding lookup dns_sync.Base.str_beq insert
mesh-parsed o e p h =
    lookup-parsed o mesh_label_key e p h
    ∙ lookup-insert (made e.labels) mesh_label_key mesh_label_key o

own_labels-parsed :
    (o : Str) (e : Endpoint)
    → IsPlain o
    → IsStorable e
    → own_labels o (text (claim o e) ∷ []) ≡ some (some (parsed (claim o e)))
unfolding own_labels parsed
own_labels-parsed o e p h = rw (mesh-parsed o e p h, beq_refl o) refl

pub kind-text :
    (o : Str) (e : Endpoint)
    → IsPlain o
    → IsStorable e
    → kind o (text_record (claim o e)) ≡ some (some (parsed (claim o e)))
unfolding kind dns_sync.Base.str_beq
kind-text o e p h = own_labels-parsed o e p h
