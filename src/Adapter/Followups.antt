-- ===== src/Adapter/Followups.antt =====
-- adapter.py: `_handle_service_request`, which refuses, since a personal agent offers no services,
-- and `_handle_service_followup_grant` and `_handle_service_followup`.
pub mod Granted
use aap_hermes.Prelude.{
  String, Bool, true, false, not, Option, none, some, List, [], ◌∷◌, ◌==◌, if◌then◌else◌,
}
use aap_hermes.Prelude.Text.{◌<>◌}
use aap_hermes.Prelude.Text.Joined.{concat, join}
use aap_hermes.Adapter.Stores.{Notice, inbound_notice}

pub record ServiceFollowup : Type 0 where
  pub grant_nonce : String
  pub service_id : String
  pub message : String
  pub suggested_slots : List String

-- A grant of ours, and what it answers when it is asked for its lifetime and its window.
pub record Grant : Type 0 where
  pub counterparty : String
  pub is_within_lifetime : Bool
  pub is_within_outreach_window : Bool

-- `followup_grants`; `record_received` is `none` where it raises, on a customer, the grant's
-- envelope and the customer's key.
pub record GrantStore : Type 1 where
  pub State : Type 0
  pub record_received : String → String → String → State → Option State
  pub find_issued_by_nonce : String → State → Option Grant

-- The denial of a request: to whom it goes, the service, the request's nonce, and the reason.
pub record Denial : Type 0 where
  pub to : String
  pub service_id : String
  pub request_nonce : String
  pub reason : String

-- A request, as far as its denial repeats it.
pub record InboundRequest : Type 0 where
  pub service_id : String
  pub nonce : String

-- `_handle_service_request`: the denial that is handed to the relay.
unfoldable pub handle_service_request : String → Option InboundRequest → List Denial
handle_service_request iss none = []
handle_service_request iss (some req) =
    record {
      to = iss;
      service_id = req.service_id;
      request_nonce = req.nonce;
      reason = "not_a_business";
    }
    ∷ []

slots_text : List String → String
unfolding join
slots_text [] = ""
slots_text (s ∷ ss) = "\n   suggested: " <> join ", " (s ∷ ss)

unfoldable pub followup_prompt : String → ServiceFollowup → String
unfolding slots_text concat
followup_prompt iss fu = concat (
    "📅 Service followup from "
    ∷ iss
    ∷ "\n   Service: "
    ∷ fu.service_id
    ∷ "\n   Message: "
    ∷ fu.message
    ∷ slots_text fu.suggested_slots
    ∷ "\n\nReply to coordinate the booking, or ignore."
    ∷ [])

module _ (G : GrantStore) where
  -- `_handle_service_followup_grant`
  unfoldable pub handle_service_followup_grant : String → String → String → G.State → G.State
  handle_service_followup_grant iss json key s = elim (G.record_received iss json key s) [
    | none ↦ s
    | some s' ↦ s'
  ]

  -- `_handle_service_followup`
  unfoldable pub handle_service_followup : String → Option ServiceFollowup → G.State → List Notice
  handle_service_followup iss none s = []
  handle_service_followup iss (some fu) s = elim (G.find_issued_by_nonce fu.grant_nonce s) [
    | none ↦ []
    | some grant ↦
        if not (grant.counterparty == iss)
        then []
        else if not grant.is_within_lifetime
        then []
        else if not grant.is_within_outreach_window
        then []
        else inbound_notice iss (followup_prompt iss fu) ∷ []
  ]
