-- ===== src/Webhook/Client.antt =====
-- provider/webhook/webhook.go: the provider that asks a server. Making and sending a request is
-- package net/http's, an error or a response.
use dns_sync.Base.{
  Bool, ◌&&◌, Option, none, some, List, [], ℕ, Str, ◌==◌, str_eq, leb, ltb, nat_beq, if◌then◌else◌,
}
use dns_sync.Attempt.{Attempt, failed, returned, continue}
use dns_sync.Endpoint.{Endpoint}
use dns_sync.Provider.Memory.{Changes}
use dns_sync.DomainFilter.{DomainFilter}
use dns_sync.Webhook.{
  Codecs, get, post, Request, Response, media_type_format_and_version, records_path,
  adjust_endpoints_path,
}

-- The errors of a call: the request's, a status that makes a soft error or not, or a body that
-- cannot be decoded
pub data CallError (E : Type 0) : Type 0 where
  not_sent : E → CallError E
  soft_status : ℕ → CallError E
  bad_status : ℕ → CallError E
  not_decoded : CallError E

-- `isRetryableError`
unfoldable pub is_retryable_error : ℕ → Bool
is_retryable_error status_code = leb 500 status_code && leb status_code 510

abbrev pub status_error : {E : Type 0} → ℕ → CallError E
status_error c = if is_retryable_error c then soft_status c else bad_status c

abbrev pub decoded {ℓ} : {E : Type 0} {A : Type ℓ} → Option A → Attempt (CallError E) A
decoded none = failed not_decoded
decoded (some a) = returned a

-- What `Records` and `AdjustEndpoints` do with an answer
unfoldable pub read_endpoints :
    {E : Type 0} → Codecs → Attempt E Response → Attempt (CallError E) (List Endpoint)
read_endpoints codecs (failed e) = failed (not_sent e)
read_endpoints codecs (returned r) =
    if nat_beq r.status 200
    then decoded (codecs.endpoints.decode r.body)
    else failed (status_error r.status)

-- What `ApplyChanges` does with an answer: its error, if there is one
unfoldable pub read_applied : {E : Type 0} → Attempt E Response → Option (CallError E)
read_applied (failed e) = some (not_sent e)
read_applied (returned r) = if nat_beq r.status 204 then none else some (status_error r.status)

module _ {E S : Type 0} (codecs : Codecs) (send : Request → S → Attempt E Response × S)
    (base : Str) where
  -- `WebhookProvider.Records`
  unfoldable pub records : S → Attempt (CallError E) (List Endpoint) × S
  records s =
      let (r, t) = send (record { method = get; path = records_path base; body = [] }) s in
      (read_endpoints codecs r, t)

  -- `WebhookProvider.ApplyChanges`
  unfoldable pub apply_changes : Changes → S → Option (CallError E) × S
  apply_changes changes s =
      let (r, t) =
        send
          (record { method = post; path = records_path base; body = codecs.changes.encode changes })
          s in
      (read_applied r, t)

  -- `WebhookProvider.AdjustEndpoints`
  unfoldable pub adjust_endpoints : List Endpoint → S → Attempt (CallError E) (List Endpoint) × S
  adjust_endpoints es s =
      let (r, t) =
        send
          (record {
            method = post;
            path = adjust_endpoints_path base;
            body = codecs.endpoints.encode es;
          })
          s in
      (read_endpoints codecs r, t)

-- The errors of `NewWebhookProvider`: a request that is not sent or not accepted, a filter that
-- cannot be decoded, the wrong content type
pub data ConnectError (E : Type 0) : Type 0 where
  not_connected : E → ConnectError E
  refused : ℕ → ConnectError E
  bad_filter : ConnectError E
  wrong_content_type : Str → ConnectError E

-- What the function that is retried makes of an answer: it is tried again after an error of the
-- request alone, and a status from 300 to 499 is an error for good.
pub data Step (E : Type 0) : Type 0 where
  again : E → Step E
  stop : ℕ → Step E
  done : Response → Step E

unfoldable pub connect_step : {E : Type 0} → Attempt E Response → Step E
connect_step (failed e) = again e
connect_step (returned r) = if leb 300 r.status && ltb r.status 500 then stop r.status else done r

-- What follows the retries
abbrev filter_of :
    {E : Type 0} → Response → Option DomainFilter → Attempt (ConnectError E) DomainFilter
filter_of r none = failed bad_filter
filter_of r (some df) =
    if r.content_type == media_type_format_and_version
    then returned df
    else failed (wrong_content_type r.content_type)

unfoldable pub negotiated : {E : Type 0} → Codecs → Response → Attempt (ConnectError E) DomainFilter
negotiated codecs r = filter_of r (codecs.domain_filter.decode r.body)

-- `NewWebhookProvider` with a URL of which a request can be made
unfoldable pub connected :
    {E S : Type 0}
    → Codecs
    → ((S → Step E × S) → S → Attempt (ConnectError E) Response × S)
    → (Request → S → Attempt E Response × S)
    → Str
    → S
    → Attempt (ConnectError E) DomainFilter × S
connected codecs retry send url s =
    let (r, t) =
      retry
        (λ u.
          let (answer, v) = send (record { method = get; path = url; body = [] }) u in
          (connect_step answer, v))
        s in
    (continue r (negotiated codecs), t)

-- `NewWebhookProvider`: the filter that it keeps. `no_request` is the error of a URL that cannot be
-- parsed, or of which no request can be made; `retry` is package backoff's, which runs a step until
-- it is done or to be tried no more.
unfoldable pub new_webhook_provider :
    {E S : Type 0}
    → Codecs
    → ((S → Step E × S) → S → Attempt (ConnectError E) Response × S)
    → (Request → S → Attempt E Response × S)
    → (Str → Option E)
    → Str
    → S
    → Attempt (ConnectError E) DomainFilter × S
new_webhook_provider codecs retry send no_request url s = elim (no_request url) [
  | some e ↦ (failed (not_connected e), s)
  | none ↦ connected codecs retry send url s
]
