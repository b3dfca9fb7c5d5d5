-- ===== src/Webhook/Remote.antt =====
-- The client over the server, and which answers are soft errors.
use dns_sync.Base.{
  ◌≡◌, ◌≤◌, ◌↔◌, refl, ap, arith, false, Option, none, some, List, [], ◌∷◌, ◌++◌, ℕ, Str, str_beq,
  nat_beq_iff, codes, ◌==◌, str_eq, nat_beq, if◌then◌else◌, beq_refl,
}
use dns_sync.Attempt.{Attempt, failed, returned}
use dns_sync.Endpoint.{Endpoint}
use dns_sync.Provider.Memory.{Changes}
use dns_sync.Webhook.{
  Provider, Codecs, IsFaithful, Request, Response, records_path, adjust_endpoints_path,
}
use dns_sync.Webhook.Server.{
  serve, records_handler, adjust_endpoints_handler, answer_records, answer_changes, answer_adjusted,
}
use dns_sync.Webhook.Client.{
  CallError, soft_status, is_retryable_error, status_error, decoded, read_endpoints, read_applied,
  records, apply_changes, adjust_endpoints,
}

-- A provider as its client sees it: an error is a soft one with the status 500, and endpoints are
-- what a text carries of them.
abbrev pub seen_records :
    {E : Type 0} → Codecs → Attempt Str (List Endpoint) → Attempt (CallError E) (List Endpoint)
seen_records codecs (failed e) = failed (soft_status 500)
seen_records codecs (returned es) = returned (codecs.endpoints.carried es)

abbrev pub seen_error : {E : Type 0} → Option Str → Option (CallError E)
seen_error none = none
seen_error (some e) = some (soft_status 500)

abbrev pub seen_adjusted :
    {E : Type 0} → Codecs → List Endpoint × Option Str → Attempt (CallError E) (List Endpoint)
seen_adjusted codecs (es, none) = returned (codecs.endpoints.carried es)
seen_adjusted codecs (es, some e) = failed (soft_status 500)

append_beq : (xs ys zs : Str) → (xs ++ ys == xs ++ zs) ≡ (ys == zs)
unfolding str_beq
append_beq [] ys zs = refl
append_beq (x ∷ xs) ys zs = rw ((nat_beq_iff x x).1 refl) (append_beq xs ys zs)

apart : (prefix : Str) → (adjust_endpoints_path prefix == records_path prefix) ≡ false
unfolding str_beq
apart prefix = append_beq prefix (codes "/adjustendpoints") (codes "/records")

module _ (E : Type 0) {S : Type 0} (codecs : Codecs) (p : Provider S) (prefix : Str) where
  -- The network brings each request to the server, and the answer back.
  abbrev pub delivered : Request → S → Attempt E Response × S
  delivered req s = let (r, t) = serve codecs p prefix req s in (returned r, t)

  -- The client's three calls are the provider's, seen through the texts.
  pub record IsRemote (c : Changes) (es : List Endpoint) (s : S) : Type 0 where
    pub reads :
        records codecs delivered prefix s ≡ (seen_records codecs (p.records s).0, (p.records s).1)
    pub applies : apply_changes codecs delivered prefix c s ≡ (
      seen_error (p.apply_changes (codecs.changes.carried c) s).0,
      (p.apply_changes (codecs.changes.carried c) s).1,
    )
    pub adjusts : adjust_endpoints codecs delivered prefix es s ≡ (
      seen_adjusted codecs (p.adjust_endpoints (codecs.endpoints.carried es) s).0,
      (p.adjust_endpoints (codecs.endpoints.carried es) s).1,
    )

  read_records :
      IsFaithful codecs.endpoints
      → (a : Attempt Str (List Endpoint))
      → read_endpoints {E = E} codecs (returned (answer_records codecs p a)) ≡ seen_records codecs a
  unfolding read_endpoints is_retryable_error
  read_records faithful (failed e) = refl
  read_records faithful (returned es) = ap decoded (faithful es)

  read_changes :
      (e : Option Str) → read_applied {E = E} (returned (answer_changes codecs p e)) ≡ seen_error e
  unfolding read_applied is_retryable_error
  read_changes none = refl
  read_changes (some e) = refl

  read_adjusted :
      IsFaithful codecs.endpoints
      → (a : List Endpoint × Option Str)
      → read_endpoints {E = E} codecs (returned (answer_adjusted codecs p a))
        ≡ seen_adjusted codecs a
  unfolding read_endpoints is_retryable_error
  read_adjusted faithful (adjusted, none) = ap decoded (faithful adjusted)
  read_adjusted faithful (adjusted, some e) = refl

  reads-delivered :
      IsFaithful codecs.endpoints
      → (s : S)
      → records codecs delivered prefix s ≡ (seen_records codecs (p.records s).0, (p.records s).1)
  unfolding records serve records_handler
  reads-delivered faithful s =
      rw (beq_refl (records_path prefix))
        (ap (λ r. (r, (p.records s).1)) (read_records faithful (p.records s).0))

  applies-delivered :
      IsFaithful codecs.changes
      → (c : Changes) (s : S)
      → apply_changes codecs delivered prefix c s ≡ (
        seen_error (p.apply_changes (codecs.changes.carried c) s).0,
        (p.apply_changes (codecs.changes.carried c) s).1,
      )
  unfolding apply_changes serve records_handler
  applies-delivered faithful c s =
      rw (beq_refl (records_path prefix), faithful c)
        (ap (λ r. (r, (p.apply_changes (codecs.changes.carried c) s).1))
          (read_changes (p.apply_changes (codecs.changes.carried c) s).0))

  adjusts-delivered :
      IsFaithful codecs.endpoints
      → (es : List Endpoint) (s : S)
      → adjust_endpoints codecs delivered prefix es s ≡ (
        seen_adjusted codecs (p.adjust_endpoints (codecs.endpoints.carried es) s).0,
        (p.adjust_endpoints (codecs.endpoints.carried es) s).1,
      )
  unfolding adjust_endpoints serve adjust_endpoints_handler
  adjusts-delivered faithful es s =
      rw (apart prefix, beq_refl (adjust_endpoints_path prefix), faithful es)
        (ap (λ r. (r, (p.adjust_endpoints (codecs.endpoints.carried es) s).1))
          (read_adjusted faithful (p.adjust_endpoints (codecs.endpoints.carried es) s).0))

  -- Where what is written in JSON is read back, the client of a server is a refinement of the
  -- server's provider: each call leaves the provider in the state that its own operation leaves, on
  -- the arguments that a text carries, and gives its result, an error as a soft error with the
  -- status 500.
  pub serve-IsRemote :
      IsFaithful codecs.endpoints
      → IsFaithful codecs.changes
      → (c : Changes) (es : List Endpoint) (s : S) → IsRemote c es s
  serve-IsRemote faithful faithful_changes c es s = record {
    reads = reads-delivered faithful s;
    applies = applies-delivered faithful_changes c s;
    adjusts = adjusts-delivered faithful es s;
  }

soft_answer :
    {E : Type 0} (d c : ℕ) (b : Option (List Endpoint))
    → (if nat_beq d 200 then decoded {E = E} b else failed (status_error d))
      ≡ failed (soft_status c)
    → (d ≡ c) × ((500 ≤ c) × (c ≤ 510))
unfolding is_retryable_error
soft_answer d c none e = ground arith
soft_answer d c (some es) e = ground arith

-- A call to the server fails with a soft error just when it answers with a status from 500 to 510:
-- other statuses, a request that is not sent and a body that is not decoded make other errors.
is_soft_iff :
    {E : Type 0} (codecs : Codecs) (r : Response) (c : ℕ)
    → ((read_endpoints {E = E} codecs (returned r) ≡ failed (soft_status c))
        ↔ ((r.status ≡ c) × ((500 ≤ c) × (c ≤ 510))))
      × ((read_applied {E = E} (returned r) ≡ some (soft_status c))
          ↔ ((r.status ≡ c) × ((500 ≤ c) × (c ≤ 510))))
unfolding read_endpoints read_applied is_retryable_error
is_soft_iff codecs r c = (
  (soft_answer r.status c (codecs.endpoints.decode r.body), λ h. ground arith),
  (λ e. ground arith, λ h. ground arith),
)
