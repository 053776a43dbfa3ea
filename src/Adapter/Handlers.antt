-- ===== src/Adapter/Handlers.antt =====
-- adapter.py: the handlers of the payloads as `_dispatch` calls them, on the stores that they share.
pub mod Established
use aap_hermes.Prelude.{String, Bool, Option, none, some, List, [], ◌∷◌, ◌++◌, is_some}
use aap_hermes.Contacts.{Contact}
use aap_hermes.Adapter.Stores.{ConversationStore, RelationshipStore, ProposalStore, Notice}
use aap_hermes.Adapter.Groups.{
  GroupInvitation, GroupMembershipUpdate, GroupLeave, GroupComplete, handle_group_invitation,
  handle_group_membership_update, handle_group_leave, handle_group_complete,
}
use aap_hermes.Adapter.Identities.{Verification}
use aap_hermes.Adapter.Relationships.{
  RelationshipAccept, RelationshipDecline, RelationshipRevoke, Self, Stores,
  handle_relationship_accept, handle_relationship_decline, handle_relationship_revoke,
}
use aap_hermes.Adapter.Proposals.{RelationshipProposal, handle_relationship_proposal}
use aap_hermes.Adapter.Introductions.{
  IntroductionStore, IntroductionRequest, Sdk, handle_discovery_introduction_request,
}
use aap_hermes.Adapter.Followups.{
  ServiceFollowup, GrantStore, Denial, InboundRequest, handle_service_request,
  handle_service_followup_grant, handle_service_followup,
}
use aap_hermes.Adapter.Inbound.{Envelope, Directory, Handlers}

-- The `from_dict` of each payload, `none` where it raises.
pub record Payloads : Type 0 where
  pub group_invitation : Envelope → Option GroupInvitation
  pub group_membership_update : Envelope → Option GroupMembershipUpdate
  pub group_leave : Envelope → Option GroupLeave
  pub group_complete : Envelope → Option GroupComplete
  pub introduction_request : Envelope → Option IntroductionRequest
  pub service_request : Envelope → Option InboundRequest
  pub relationship_proposal : Envelope → Option RelationshipProposal
  pub relationship_accept : Envelope → Option RelationshipAccept
  pub relationship_decline : Envelope → Option RelationshipDecline
  pub relationship_revoke : Envelope → Option RelationshipRevoke
  pub service_followup : Envelope → Option ServiceFollowup

-- What the handlers read beside the stores: who we are, the time, the contacts, the names of the
-- bound peers, and Python's `str.lower` and `repr`.
pub record Host : Type 0 where
  pub me : Self
  pub now : String
  pub contacts : Option (List Contact)
  pub label : String → Option String
  pub lower : String → String
  pub repr : String → String

module _ (C : ConversationStore) (R : RelationshipStore) (P : ProposalStore) (I : IntroductionStore)
    (G : GrantStore) where
  -- The stores, the notices that were mirrored, and the denials that were sent.
  pub record Inbox : Type 0 where
    pub conversations : C.State
    pub stores : Stores R P
    pub introductions : I.State
    pub grants : G.State
    pub notices : List Notice
    pub denials : List Denial

  abbrev with_conversations : C.State × List Notice → Inbox → Inbox
  with_conversations (c, ns) s = record s { conversations = c; notices = s.notices ++ ns }

  abbrev with_stores : Stores R P × List Notice → Inbox → Inbox
  with_stores (st, ns) s = record s { stores = st; notices = s.notices ++ ns }

  abbrev with_proposals : P.State × List Notice → Inbox → Inbox
  with_proposals (p, ns) s = record s {
    stores = record s.stores { proposals = p };
    notices = s.notices ++ ns;
  }

  abbrev with_introductions : I.State × List Notice → Inbox → Inbox
  with_introductions (i, ns) s = record s { introductions = i; notices = s.notices ++ ns }

  -- The handlers; the turn of a chat message and the routing of a service's answer, which may call
  -- every tool, are arguments.
  abbrev pub handlers :
      Verification
      → Sdk
      → Directory
      → Payloads
      → Host
      → (Envelope → Inbox → Inbox)
      → (Envelope → Inbox → Inbox)
      → Handlers Inbox
  handlers V sdk dir read host turn answer = record {
    group_invitation = λ e s.
        with_conversations
          (handle_group_invitation C
            (is_some (R.any_relationship_with e.iss s.stores.relationships)) (host.label e.iss)
            host.now e.iss (read.group_invitation e) s.conversations)
          s;
    group_membership_update = λ e s.
        with_conversations
          (handle_group_membership_update C e.iss (read.group_membership_update e) s.conversations)
          s;
    group_leave = λ e s.
        with_conversations (handle_group_leave C e.iss (read.group_leave e) s.conversations) s;
    group_complete = λ e s.
        with_conversations
          (handle_group_complete C host.now e.iss (read.group_complete e) s.conversations) s;
    discovery_introduction_request = λ e s.
        with_introductions
          (handle_discovery_introduction_request sdk dir I host.lower host.repr host.contacts e
            (read.introduction_request e) s.introductions)
          s;
    service_request = λ e s. record s {
      denials = s.denials ++ handle_service_request e.iss (read.service_request e);
    };
    service_response = answer;
    relationship_proposal = λ e s.
        with_proposals
          (handle_relationship_proposal V P host.lower host.repr host.contacts e.iss e.json
            (read.relationship_proposal e) s.stores.proposals)
          s;
    relationship_accept = λ e key s.
        with_stores
          (handle_relationship_accept R P host.me e.iss e.json key (read.relationship_accept e)
            s.stores)
          s;
    relationship_decline = λ e s.
        with_stores (handle_relationship_decline R P e.iss (read.relationship_decline e) s.stores)
          s;
    relationship_revoke = λ e key s.
        with_stores
          (handle_relationship_revoke R P host.me e.iss e.json key (read.relationship_revoke e)
            s.stores)
          s;
    service_followup_grant =
        λ e key s. record s { grants = handle_service_followup_grant G e.iss e.json key s.grants };
    service_followup = λ e s. record s {
      notices = s.notices ++ handle_service_followup G e.iss (read.service_followup e) s.grants;
    };
    chat = turn;
  }
