-- ===== src/Webhook.antt =====
-- pkg/dns_service/httpapi.go and provider/webhook/webhook.go: a provider behind HTTP. This file has
-- what both sides speak of: the provider, the messages and their forms in JSON.
pub mod Server
pub mod Client
pub mod Remote
use dns_sync.Base.{Option, none, some, List, [], ◌≡◌, ℕ, Str, codes, ◌++◌}
use dns_sync.Endpoint.{Endpoint}
use dns_sync.Provider.Memory.{Changes}
use dns_sync.DomainFilter.{DomainFilter}
use dns_sync.Attempt.{Attempt}

-- `endpoint.Provider`, with the state that it keeps. An error of `AdjustEndpoints` comes with
-- endpoints.
pub record Provider (S : Type 0) : Type 0 where
  pub records : S → Attempt Str (List Endpoint) × S
  pub apply_changes : Changes → S → Option Str × S
  pub adjust_endpoints : List Endpoint → S → (List Endpoint × Option Str) × S
  pub get_domain_filter : DomainFilter

-- How encoding/json writes and reads values of a type, and what of a value a text carries: fields
-- that are left out of the text come back empty.
pub record Codec (A : Type 0) : Type 0 where
  pub encode : A → Str
  pub decode : Str → Option A
  pub carried : A → A

-- What was written is read back.
abbrev pub IsFaithful : {A : Type 0} → Codec A → Type 0
IsFaithful {A} codec = (a : A) → codec.decode (codec.encode a) ≡ some (codec.carried a)

pub record Codecs : Type 0 where
  pub endpoints : Codec (List Endpoint)
  pub changes : Codec Changes
  pub domain_filter : Codec DomainFilter

pub data Method : Type 0 where
  get post other : Method

pub record Request : Type 0 where
  pub method : Method
  pub path : Str
  pub body : Str

pub record Response : Type 0 where
  pub status : ℕ
  pub content_type : Str
  pub body : Str

abbrev pub media_type_format_and_version : Str
media_type_format_and_version = codes "application/external.dns.webhook+json;version=1"

-- The paths below the prefix of a provider
abbrev pub records_path : Str → Str
records_path prefix = prefix ++ codes "/records"

abbrev pub adjust_endpoints_path : Str → Str
adjust_endpoints_path prefix = prefix ++ codes "/adjustendpoints"
