-- ===== src/Examples/Inbox.antt =====
-- The adapter with its handlers, while an accept of James comes in.
use aap_hermes.Prelude.{String, ◌≡◌, none, some, [], ◌∷◌, ◌⊎◌}
use aap_hermes.Adapter.Followups.{GrantStore}
use aap_hermes.Adapter.Handlers.{Payloads, Host, Inbox}
use aap_hermes.Adapter.Inbound.{Envelope, Held, dispatch}
use aap_hermes.Adapter.Inbound.Pinned.{IsHandled}
use aap_hermes.Adapter.Handlers.Established.{adapter, IsJustified, dispatch-IsJustified}
use aap_hermes.Examples.Stores.{conversation_list, peer_list, proposal_map, introduction_map}
use aap_hermes.Examples.World.{james, repr}
use aap_hermes.Examples.Consent.{self, asked, yes}
use aap_hermes.Examples.Keys.{Signed, plain, plain-IsWire, directory, attestations, sdk}

abbrev no_grants : GrantStore
no_grants = record {
  State = String;
  record_received = λ iss json key s. none;
  find_issued_by_nonce = λ nonce s. none;
}

abbrev Box : Type 0
Box = Inbox conversation_list peer_list proposal_map introduction_map no_grants

-- every payload is read as the accept
abbrev read : Payloads
read = record {
  group_invitation = λ e. none;
  group_membership_update = λ e. none;
  group_leave = λ e. none;
  group_complete = λ e. none;
  introduction_request = λ e. none;
  service_request = λ e. none;
  relationship_proposal = λ e. none;
  relationship_accept = λ e. some yes;
  relationship_decline = λ e. none;
  relationship_revoke = λ e. none;
  service_followup = λ e. none;
}

abbrev host : Host
host = record {
  me = self;
  now = "2026";
  contacts = some [];
  label = λ peer. none;
  lower = λ t. t;
  repr = repr;
}

abbrev ignored : Envelope → Box → Box
ignored e s = s

abbrev box : Box
box = record {
  conversations = [];
  stores = asked;
  introductions = [];
  grants = "";
  notices = [];
  denials = [];
}

abbrev accepts : Signed
accepts = (record { iss = james; payload_type = "aap.relationship-accept/v1"; json = "{}" }, "k1")

abbrev here : Held plain (
    adapter conversation_list peer_list proposal_map introduction_map no_grants attestations sdk
      directory read host ignored ignored)
here = ((james, "k1") ∷ [], box)

abbrev there : Held plain (
    adapter conversation_list peer_list proposal_map introduction_map no_grants attestations sdk
      directory read host ignored ignored)
there =
    dispatch plain
      (adapter conversation_list peer_list proposal_map introduction_map no_grants attestations sdk
        directory read host ignored ignored)
      directory accepts here

dispatch-IsJustified_example :
    (there.1.stores.relationships ≡ [])
    ⊎ ((e : Envelope) × (h : IsHandled plain plain-IsWire
          (adapter conversation_list peer_list proposal_map introduction_map no_grants attestations
            sdk directory read host ignored ignored)
          accepts
          e
          here
          there)
        × IsJustified conversation_list peer_list proposal_map introduction_map no_grants
            attestations sdk directory read host ignored ignored e h.key box there.1)
dispatch-IsJustified_example =
    dispatch-IsJustified conversation_list peer_list proposal_map introduction_map no_grants
      attestations sdk directory read host ignored ignored plain plain-IsWire accepts here
