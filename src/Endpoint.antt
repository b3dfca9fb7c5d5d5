-- ===== src/Endpoint.antt =====
-- endpoint/endpoint.go and endpoint/labels.go: DNS records as the program handles them. A Go map
-- of labels is an association list, and the nil map is `none`.
pub mod Owner
pub mod Properties
use dns_sync.Base.{
  ℕ, ◌≡◌, ◌↔◌, Bool, true, false, ◌&&◌, Option, none, some, List, [], ◌∷◌, ◌++◌, Str, codes, ltb,
  length, map, all, EqTest, ◌==◌, str_eq, ℤ, pos, is_positive, lookup, insert, trim_suffix, split,
  arith, if◌then◌else◌, any, not, is_some, keep,
}

abbrev pub Labels : Type 0
Labels = List (Str × Str)

-- The constants that name record types and labels.
abbrev pub record_type_a : Str
record_type_a = codes "A"

abbrev pub record_type_aaaa : Str
record_type_aaaa = codes "AAAA"

abbrev pub record_type_cname : Str
record_type_cname = codes "CNAME"

abbrev pub record_type_txt : Str
record_type_txt = codes "TXT"

abbrev pub record_type_ns : Str
record_type_ns = codes "NS"

abbrev pub owner_label_key : Str
owner_label_key = codes "owner"

abbrev pub resource_label_key : Str
resource_label_key = codes "resource"

abbrev pub owned_record_label_key : Str
owned_record_label_key = codes "ownedRecord"

pub record ProviderSpecificProperty : Type 0 where
  pub name : Str
  pub value : Str

pub record Endpoint : Type 0 where
  pub dns_name : Str
  pub targets : List Str
  pub record_type : Str
  pub set_identifier : Str
  pub record_ttl : ℤ
  pub labels : Option Labels
  pub provider_specific : List ProviderSpecificProperty

pub record EndpointKey : Type 0 where
  pub dns_name : Str
  pub record_type : Str
  pub set_identifier : Str

abbrev pub endpoint_key_beq : EndpointKey → EndpointKey → Bool
endpoint_key_beq a b =
    a.dns_name == b.dns_name
    && a.record_type == b.record_type
    && a.set_identifier == b.set_identifier

pub endpoint_key_beq_iff : (a b : EndpointKey) → (endpoint_key_beq a b ≡ true) ↔ (a ≡ b)
endpoint_key_beq_iff a b = ground (
  arith,
  str_eq.beq_iff a.dns_name b.dns_name,
  str_eq.beq_iff a.record_type b.record_type,
  str_eq.beq_iff a.set_identifier b.set_identifier,
)

instance abbrev pub endpoint_key_eq : EqTest EndpointKey
endpoint_key_eq = record { beq = endpoint_key_beq; beq_iff = endpoint_key_beq_iff }

-- `e.Key()`
abbrev pub key : Endpoint → EndpointKey
key e = record {
  dns_name = e.dns_name;
  record_type = e.record_type;
  set_identifier = e.set_identifier;
}

-- `ttl.IsConfigured()`
abbrev pub is_configured : ℤ → Bool
is_configured ttl = is_positive ttl

-- `labels[k]` with its presence: a nil map has no key.
unfoldable pub label_in : Str → Option Labels → Option Str
label_in k none = none
label_in k (some m) = lookup k m

-- `e.Labels[k]`, with its presence
abbrev pub label : Str → Endpoint → Option Str
label k e = label_in k e.labels

-- `e.Labels[k]` as a plain value: the empty text where the key is missing
abbrev pub value_or_empty : Option Str → Str
value_or_empty none = []
value_or_empty (some v) = v

abbrev pub is_value : Option Str → Str → Bool
is_value none id = false
is_value (some v) id = v == id

-- `e.IsOwnedBy(ownerID)`
unfoldable pub is_owned_by : Endpoint → Str → Bool
is_owned_by e owner_id = is_value (label owner_label_key e) owner_id

-- `NewEndpointWithTTL`; `none` is the nil that it returns for a label of more than 63 bytes.
unfoldable pub new_endpoint_with_ttl : Str → Str → ℤ → List Str → Option Endpoint
unfolding trim_suffix split
new_endpoint_with_ttl dns_name record_type ttl targets =
    if any (λ label. ltb 63 (length label)) (split b'.' dns_name)
    then none
    else some (record {
      dns_name = trim_suffix b'.' dns_name;
      targets = map (λ target. trim_suffix b'.' target) targets;
      record_type = record_type;
      set_identifier = [];
      record_ttl = ttl;
      labels = some [];
      provider_specific = [];
    })

-- `NewEndpoint`
unfoldable pub new_endpoint : Str → Str → List Str → Option Endpoint
unfolding new_endpoint_with_ttl
new_endpoint dns_name record_type targets =
    new_endpoint_with_ttl dns_name record_type (pos 0) targets

-- `e.WithSetIdentifier(setIdentifier)`
abbrev pub with_set_identifier : Str → Endpoint → Endpoint
with_set_identifier id e = record e { set_identifier = id }

module _ {ℓ} {A : Type ℓ} (read : A → Endpoint) where
  -- `FilterEndpointsByOwnerID`, over values that stand for endpoints
  unfoldable pub filter_endpoints_by_owner_id : Str → List A → List A
  unfolding is_owned_by
  filter_endpoints_by_owner_id owner_id eps = keep (λ ep. is_owned_by (read ep) owner_id) eps

  -- The loop of `RemoveDuplicates`, with the keys visited so far.
  unfoldable pub remove_visited : List EndpointKey → List A → List A
  remove_visited visited [] = []
  remove_visited visited (ep ∷ eps) =
      let again = remove_visited visited eps in
      let first = ep ∷ remove_visited (key (read ep) ∷ visited) eps in
      if any (λ k. k == key (read ep)) visited then again else first

  -- `RemoveDuplicates`
  unfoldable pub remove_duplicates : List A → List A
  unfolding remove_visited
  remove_duplicates eps = remove_visited [] eps

-- The loop of `GetProviderSpecificProperty`
unfoldable pub get_property : Str → List ProviderSpecificProperty → Option Str
get_property k [] = none
get_property k (p ∷ ps) = if p.name == k then some p.value else get_property k ps

-- The loop of `SetProviderSpecificProperty`: the first property of that name, or a new one.
unfoldable pub set_property :
    Str → Str → List ProviderSpecificProperty → List ProviderSpecificProperty
set_property k v [] = record { name = k; value = v } ∷ []
set_property k v (p ∷ ps) =
    if p.name == k then record { name = k; value = v } ∷ ps else p ∷ set_property k v ps

-- The loop of `DeleteProviderSpecificProperty`: the first property of that name goes.
unfoldable pub delete_property : Str → List ProviderSpecificProperty → List ProviderSpecificProperty
delete_property k [] = []
delete_property k (p ∷ ps) = if p.name == k then ps else p ∷ delete_property k ps

abbrev pub get_provider_specific_property : Str → Endpoint → Option Str
get_provider_specific_property k e = get_property k e.provider_specific

abbrev pub set_provider_specific_property : Str → Str → Endpoint → Endpoint
set_provider_specific_property k v e = record e {
  provider_specific = set_property k v e.provider_specific;
}

abbrev pub delete_provider_specific_property : Str → Endpoint → Endpoint
delete_provider_specific_property k e = record e {
  provider_specific = delete_property k e.provider_specific;
}
