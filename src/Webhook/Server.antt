-- ===== src/Webhook/Server.antt =====
-- pkg/dns_service/httpapi.go: the handlers of the server. A writer is net/http's: the first status
-- stands, and a body that is written before it makes the status 200.
use dns_sync.Base.{
  Option, none, some, List, [], ◌++◌, ℕ, Str, codes, ◌==◌, str_eq, has_prefix, if◌then◌else◌,
}
use dns_sync.Attempt.{Attempt, failed, returned}
use dns_sync.Endpoint.{Endpoint}
use dns_sync.Provider.Memory.{Changes}
use dns_sync.Webhook.{
  Provider, Codecs, get, post, other, Request, Response, media_type_format_and_version,
  records_path, adjust_endpoints_path,
}

-- `http.ResponseWriter`: the content type is the one that is set when the status is written.
pub record Writer : Type 0 where
  pub status : Option ℕ
  pub content_type : Str
  pub sent_content_type : Str
  pub body : Str

abbrev new_writer : Writer
new_writer = record { status = none; content_type = []; sent_content_type = []; body = [] }

abbrev set_content_type : Str → Writer → Writer
set_content_type value w = record w { content_type = value }

abbrev status_or : ℕ → Option ℕ → ℕ
status_or c none = c
status_or c (some d) = d

abbrev type_or : Str → Str → Option ℕ → Str
type_or now before none = now
type_or now before (some d) = before

abbrev write_header : ℕ → Writer → Writer
write_header code w = record w {
  status = some (status_or code w.status);
  sent_content_type = type_or w.content_type w.sent_content_type w.status;
}

abbrev write : Str → Writer → Writer
write text w = let v = write_header 200 w in record v { body = v.body ++ text }

-- What the server sends when a handler has returned
abbrev finish : Writer → Response
finish w =
    let v = write_header 200 w in
    record { status = status_or 200 v.status; content_type = v.sent_content_type; body = v.body }

module _ {S : Type 0} (codecs : Codecs) (p : Provider S) where
  -- The case of `RecordsHandler` for GET, after the provider's answer
  abbrev pub answer_records : Attempt Str (List Endpoint) → Response
  answer_records (failed e) = finish (write_header 500 new_writer)
  answer_records (returned es) = finish (
      write (codecs.endpoints.encode es)
        (write_header 200 (set_content_type media_type_format_and_version new_writer)))

  -- The case for POST, after the provider's answer
  abbrev pub answer_changes : Option Str → Response
  answer_changes (some e) = finish (write_header 500 new_writer)
  answer_changes none = finish (write_header 204 new_writer)

  abbrev pub apply_decoded : Option Changes → S → Response × S
  apply_decoded none s = (finish (write_header 400 new_writer), s)
  apply_decoded (some changes) s = let (r, t) = p.apply_changes changes s in (answer_changes r, t)

  -- `RecordsHandler`
  unfoldable pub records_handler : Request → S → Response × S
  records_handler req s = elim req.method [
    | get ↦ let (r, t) = p.records s in (answer_records r, t)
    | post ↦ apply_decoded (codecs.changes.decode req.body) s
    | other ↦ (finish (write_header 400 new_writer), s)
  ]

  abbrev adjust_status : Option Str → Writer → Writer
  adjust_status none w = w
  adjust_status (some e) w = write_header 500 w

  -- After an error of the provider, `AdjustEndpointsHandler` goes on and writes the endpoints.
  abbrev pub answer_adjusted : List Endpoint × Option Str → Response
  answer_adjusted (es, e) = finish (
      write (codecs.endpoints.encode es)
        (adjust_status e (set_content_type media_type_format_and_version new_writer)))

  abbrev pub adjust_decoded : Option (List Endpoint) → S → Response × S
  adjust_decoded none s = (finish (write_header 400 new_writer), s)
  adjust_decoded (some pve) s = let (r, t) = p.adjust_endpoints pve s in (answer_adjusted r, t)

  -- `AdjustEndpointsHandler`
  unfoldable pub adjust_endpoints_handler : Request → S → Response × S
  adjust_endpoints_handler req s = elim req.method [
    | get ↦ (finish (write_header 400 new_writer), s)
    | post ↦ adjust_decoded (codecs.endpoints.decode req.body) s
    | other ↦ (finish (write_header 400 new_writer), s)
  ]

  -- `NegotiateHandler`
  unfoldable pub negotiate_handler : Request → S → Response × S
  negotiate_handler req s = (
    finish (
        write (codecs.domain_filter.encode p.get_domain_filter)
          (set_content_type media_type_format_and_version new_writer)),
    s,
  )

  -- The handler that the mux of `InitHandlers` chooses: the longest of its patterns that fits
  unfoldable pub serve : Str → Request → S → Response × S
  serve prefix req s =
      if req.path == records_path prefix
      then records_handler req s
      else if req.path == adjust_endpoints_path prefix
      then adjust_endpoints_handler req s
      else if has_prefix req.path (prefix ++ codes "/")
      then negotiate_handler req s
      else (finish (write_header 404 new_writer), s)
