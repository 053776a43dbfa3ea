-- ===== src/Adapter/Stores.antt =====
-- The stores of the `aap` package that the adapter keeps: `aap.conversations`, `aap.relationships`
-- and the others are not in the repository, so each is an interface, with what the adapter relies
-- on as laws.
use aap_hermes.Prelude.{
  String, Bool, Option, none, some, List, [], ◌∷◌, ◌≡◌, ◌≢◌, ◌==◌, if◌then◌else◌,
}

pub record Conversation : Type 0 where
  pub conversation_id : String
  pub purpose : String
  pub members : List String
  pub convener : String
  pub accepted_at : String
  pub last_message_at : Option String
  pub name : String
  pub goal : String
  pub completed_at : Option String

-- `ConversationStore`
pub record ConversationStore : Type 1 where
  pub State : Type 0
  pub get : String → State → Option Conversation
  pub record_conversation : Conversation → State → State
  pub update_members : String → List String → State → State
  pub remove_member : String → String → State → State
  pub dissolve : String → State → State
  pub conversations : State → List Conversation
  pub set_conversations : List Conversation → State → State
  pub display_name : Conversation → String

abbrev pub with_members : List String → Option Conversation → Option Conversation
with_members ms none = none
with_members ms (some c) = some (record c { members = ms })

-- the members without one address
unfoldable pub without : String → List String → List String
without x [] = []
without x (y ∷ ys) = let rest = without x ys in if y == x then rest else y ∷ rest

abbrev pub without_member : String → Option Conversation → Option Conversation
without_member x none = none
without_member x (some c) = some (record c { members = without x c.members })

-- The first conversation with an id.
unfoldable pub find : String → List Conversation → Option Conversation
find k [] = none
find k (c ∷ rest) = if c.conversation_id == k then some c else find k rest

-- The store maps ids to conversations (tests/test_conversations.py).
pub record IsConversationStore (C : ConversationStore) : Type 0 where
  pub get-record :
      (c : Conversation) (s : C.State) (k : String)
      → C.get k (C.record_conversation c s) ≡ (if c.conversation_id == k then some c else C.get k s)
  pub get-update_members :
      (id : String) (ms : List String) (s : C.State) (k : String)
      → C.get k (C.update_members id ms s)
        ≡ (if id == k then with_members ms (C.get k s) else C.get k s)
  pub get-remove_member :
      (id x : String) (s : C.State) (k : String)
      → C.get k (C.remove_member id x s)
        ≡ (if id == k then without_member x (C.get k s) else C.get k s)
  pub get-dissolve :
      (id : String) (s : C.State) (k : String)
      → C.get k (C.dissolve id s) ≡ (if id == k then none else C.get k s)
  pub get-eq-find : (s : C.State) (k : String) → C.get k s ≡ find k (C.conversations s)
  pub conversations-set :
      (cs : List Conversation) (s : C.State) → C.conversations (C.set_conversations cs s) ≡ cs

pub record Relationship : Type 0 where
  pub relationship_type : String
  pub resource : Option String

-- `RelationshipStore`; `establish` is `none` where it raises. Its texts are our address, the peer's,
-- the two envelopes, and the keys of the proposer and of the accepter; those of `revoke` are our
-- address, the peer's, the envelope, and the key of the revoker.
pub record RelationshipStore : Type 1 where
  pub State : Type 0
  pub any_relationship_with : String → State → Option Relationship
  pub all_for_peer : String → State → List Relationship
  pub establish : String → String → String → String → String → String → State → Option State
  pub revoke : String → String → String → String → State → State × Bool

-- A row of `PendingProposalStore`; for a proposal that came in, the peer is the proposer.
pub record Proposal : Type 0 where
  pub peer_address : String
  pub relationship_type : String
  pub resource : Option String
  pub proposal_envelope_json : String

-- `PendingProposalStore`
pub record ProposalStore : Type 1 where
  pub State : Type 0
  pub record_outbound : String → Proposal → State → State
  pub take_outbound : String → State → State × Option Proposal
  pub record_inbound : String → Proposal → State → State
  pub take_inbound : String → State → State × Option Proposal
  pub most_recent_inbound_nonce : State → Option String

-- A proposal is found where it was recorded; taking it removes it, and no other
-- (tests/test_v06_dispatch.py).
pub record IsProposalStore (P : ProposalStore) : Type 0 where
  pub take_self :
      (nonce : String) (s : P.State) → (P.take_outbound nonce (P.take_outbound nonce s).0).1 ≡ none
  pub take_ne :
      (nonce other : String) (s : P.State)
      → nonce ≢ other
      → (P.take_outbound other (P.take_outbound nonce s).0).1 ≡ (P.take_outbound other s).1
  pub take-record_outbound :
      (nonce : String) (row : Proposal) (s : P.State)
      → (P.take_outbound nonce (P.record_outbound nonce row s)).1 ≡ some row
  pub take-record_inbound :
      (nonce : String) (row : Proposal) (s : P.State)
      → (P.take_inbound nonce (P.record_inbound nonce row s)).1 ≡ some row
  pub take_inbound_self :
      (nonce : String) (s : P.State) → (P.take_inbound nonce (P.take_inbound nonce s).0).1 ≡ none

-- A mirrored notice, the arguments of `mirror_to_home_channels`.
pub record Notice : Type 0 where
  pub sender : Option String
  pub recipient : Option String
  pub message : String
  pub thread_id : Option String
  pub group_label : Option String

abbrev pub inbound_notice : String → String → Notice
inbound_notice sender message = record {
  sender = some sender;
  recipient = none;
  message = message;
  thread_id = none;
  group_label = none;
}
