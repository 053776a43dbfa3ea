-- ===== src/Adapter/Chat/Gate.antt =====
-- Who may chat with us, and what the authorised text begins with.
use aap_hermes.Prelude.{
  String, ◌≡◌, Bool, false, ◌||◌, Option, none, some, arith, is_some, inl, inr, Option-cases,
}
use aap_hermes.Prelude.Text.{◌<>◌}
use aap_hermes.Prelude.Dict.{contains}
use aap_hermes.Adapter.Stores.{Conversation, ConversationStore, Relationship}
use aap_hermes.Adapter.Chat.{ChatMessage, event_of, trust_preamble, member_note, peer_note, note_of}
use aap_hermes.Adapter.PeerNotes.{labelled}
use aap_hermes.AntiRelay.{agent_prefix}
use aap_hermes.AntiRelay.Labels.{
  agent_prefix-group_trust_note, agent_prefix-reply_window_trust_note,
  agent_prefix-relationship_trust_note,
}

abbrev pub is_listed : String → Option Conversation → Bool
is_listed sender none = false
is_listed sender (some conv) = contains conv.members sender

module _ (C : ConversationStore) (repr : String → String) (my_address : String) where
  -- The rule of the chat gate: in a group, the sender is a member of the recorded conversation; in
  -- a 1:1 chat, it has a relationship with us or we wrote to it recently.
  abbrev pub may_chat : String → Option String → C.State → Option Relationship → Bool → Bool
  may_chat sender none s rel recent = is_some rel || recent
  may_chat sender (some c) s rel recent = is_listed sender (C.get c s)

  pub trust_preamble-is_some :
      (sender : String) (conv_id : Option String) (s : C.State) (rel : Option Relationship)
      (recent : Bool)
      → is_some (trust_preamble C repr my_address sender conv_id s rel recent)
        ≡ may_chat sender conv_id s rel recent
  unfolding trust_preamble
  trust_preamble-is_some sender none s rel recent = ground arith
  trust_preamble-is_some sender (some c) s rel recent = ground arith

  peer_note-label :
      (sender t p : String) (rel : Option Relationship) (recent : Bool)
      → peer_note C repr my_address sender rel recent ≡ some p
      → agent_prefix (p <> t) ≡ none
  unfolding peer_note
  peer_note-label sender t p (some rel) recent h =
      ground
        (arith, agent_prefix-relationship_trust_note sender rel.relationship_type t rel.resource)
  peer_note-label sender t p none recent h =
      ground (arith, agent_prefix-reply_window_trust_note sender t)

  member_note-label :
      (sender t p c : String) (conv : Option Conversation)
      → member_note C repr my_address sender c conv ≡ some p
      → agent_prefix (p <> t) ≡ none
  unfolding member_note
  member_note-label sender t p c none h = cc
  member_note-label sender t p c (some conv) h =
      ground (arith, agent_prefix-group_trust_note repr (note_of C repr my_address sender c conv) t)

  -- The text of an authorised message never begins with a sender's label, as the anti-relay
  -- predicate reads it: the preamble stands before it.
  pub agent_prefix-event_of :
      (m : ChatMessage) (s : C.State) (rel : Option Relationship) (recent : Bool) (p : String)
      → trust_preamble C repr my_address m.iss m.conversation_id s rel recent ≡ some p
      → agent_prefix (event_of p m).text ≡ none
  unfolding trust_preamble event_of
  agent_prefix-event_of m s rel recent p h = elim (Option-cases m.conversation_id) [
    | inl direct ↦
        peer_note-label m.iss (labelled m.iss m.body) p rel recent (ground (arith, direct))
    | inr (c, group) ↦
        member_note-label m.iss (labelled m.iss m.body) p c (C.get c s) (ground (arith, group))
  ]
