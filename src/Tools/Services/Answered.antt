-- ===== src/Tools/Services/Answered.antt =====
-- tools.py and adapter.py: the answer to a request that the tool sent comes back to the session in
-- which the tool was called.
use aap_hermes.Prelude.{ℕ, ◌≤◌, ◌+◌, String, ◌≡◌, ap, ◌∙◌, true, false, Option, some, List, arith}
use aap_hermes.Gateway.{Platform, SessionSource, Sessions}
use aap_hermes.Origins
use aap_hermes.Origins.{
  Logged, record_origin, Calendar, writable, RequestOrigin, from_session_source, asdict, object,
  created, aware,
}
use aap_hermes.Origins.View.{IsWellFormed, is_free}
use aap_hermes.Origins.Record.{record-result}
use aap_hermes.Origins.Record
use aap_hermes.Origins.Life.{Attempt, attempts, IsForged}
use aap_hermes.Adapter.Stores.{ConversationStore, RelationshipStore}
use aap_hermes.Adapter.Services.{
  PendingResponses, State, Handler, ServiceResponse, handle_service_response,
}
use aap_hermes.Origins.{or_null}
use aap_hermes.Adapter.Services.Routed.{IsKept, IsAnswered, handle_service_response-record}
use aap_hermes.Tools.Address.{Addresses}
use aap_hermes.Tools.Services.Guarded.{checked-eq-pass}
use aap_hermes.Tools.Services.{
  Cache, ServiceRequest, Sdk, pass, checked, sent, recorded, aap_send_service_request, group_of,
  build_request_origin,
}

module _ (C : ConversationStore) (R : RelationshipStore) (S : Sessions) (P : PendingResponses)
    (cal : Calendar) (ttl : ℕ) (repr : String → String) (platform_of : String → Option Platform)
    (sdk : Sdk ServiceRequest) (a : Addresses) (cache : Cache) (built now : ℕ)
    (env : Option (String → String)) (value service_id payload : String) (group : Option String)
    (s : State C R S P cal ttl repr platform_of) (resp : ServiceResponse) (request : ServiceRequest)
    (source : SessionSource) where
  -- The state after the call of the tool.
  abbrev pub asked : State C R S P cal ttl repr platform_of
  asked =
      (aap_send_service_request C R S P cal ttl repr platform_of sdk a cache built now writable env
        resp.request_nonce value service_id payload group s).2

  -- The group on whose behalf the request is made.
  abbrev pub on_behalf : Option String
  on_behalf = group_of group s.world.context

  abbrev pub origin : RequestOrigin
  origin = from_session_source cal built source request.to on_behalf

  origins-asked :
      checked sdk a s.world.context cache resp.request_nonce value service_id payload ≡ pass request
      → sdk.send_envelope_raw request ≡ true
      → s.world.context.session_source ≡ some source
      → IsWellFormed cal ttl s.origins
      → asked.origins ≡ Record.recorded cal ttl now resp.request_nonce origin s.origins
  unfolding aap_send_service_request sent recorded build_request_origin
  origins-asked allowed taken here dated = ground (
    arith,
    allowed,
    (checked-eq-pass sdk a s.world.context cache resp.request_nonce value service_id payload request
        allowed).drawn,
    taken,
    here,
    record-result cal ttl now resp.request_nonce origin s.origins dated,
  )

  module _ (handler : Handler C R S P cal ttl repr platform_of) (later t : ℕ) (iat : String)
      (forged : List Attempt) (s' : State C R S P cal ttl repr platform_of) where
    -- The lines that `record` logs.
    abbrev pub lines : List Logged
    lines = Origins.sent resp.request_nonce origin

    stored_lem :
        IsWellFormed cal ttl s.origins
        → is_free cal ttl now s.origins resp.request_nonce ≡ true
        → record_origin cal ttl now writable resp.request_nonce origin s.origins
          ≡ some (Record.recorded cal ttl now resp.request_nonce origin s.origins, true, lines)
    stored_lem dated free =
        ground (arith, record-result cal ttl now resp.request_nonce origin s.origins dated, free)

    -- A request that the tool sent in a turn is answered in that turn's session: if the checks pass
    -- and the relay takes the envelope, then the answer of the business, within the time to live,
    -- opens one turn with the session's source and with the group on whose behalf the request was
    -- made, whose final text is not sent, whatever calls of `pop_if` for other nonces or from other
    -- peers come between. No tool waits for the answer, and the record keeps the source whole; writes
    -- are taken to succeed, the nonce to be new, and no stored time to lack its zone.
    pub answer-aap_send_service_request :
        checked sdk a s.world.context cache resp.request_nonce value service_id payload
          ≡ pass request
        → sdk.send_envelope_raw request ≡ true
        → s.world.context.session_source ≡ some source
        → IsWellFormed cal ttl s.origins
        → is_free cal ttl now s.origins resp.request_nonce ≡ true
        → created cal ttl (object (asdict origin)) ≡ aware t
        → later ≤ t + ttl
        → IsForged cal ttl resp.request_nonce request.to now later forged
        → IsKept platform_of source
        → s'.origins ≡ attempts cal ttl forged asked.origins
        → (P.resolve resp.request_nonce resp s'.pending).1 ≡ false
        → IsAnswered C R S P cal ttl repr platform_of handler built now later t iat request.to resp
            source on_behalf forged s.origins
            (Record.recorded cal ttl now resp.request_nonce origin s.origins)
            lines
            s'
            (handle_service_response C R S P cal ttl repr platform_of
              (some handler)
              later
              writable
              iat
              request.to
              (some resp)
              s')
    answer-aap_send_service_request allowed taken here dated free at_t in_time attack kept same
          waits =
        handle_service_response-record C R S P cal ttl repr platform_of handler built now later t
          iat request.to resp source on_behalf forged s.origins
          (Record.recorded cal ttl now resp.request_nonce origin s.origins) lines s' dated
          (stored_lem dated free) at_t in_time attack kept
          (same ∙ ap (attempts cal ttl forged) (origins-asked allowed taken here dated)) waits
