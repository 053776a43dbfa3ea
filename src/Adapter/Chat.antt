-- ===== src/Adapter/Chat.antt =====
-- adapter.py, the end of `_dispatch`: an inbound chat message is authorised, labelled, and handed
-- to a turn of the language model, whose text may go back to the sender.
pub mod Gate
use aap_hermes.Prelude.{
  String, Bool, true, false, not, Option, none, some, List, [], ◌∷◌, ◌++◌, ◌&&◌, ◌||◌, ◌==◌,
  is_some, if◌then◌else◌,
}
use aap_hermes.Prelude.Text.{◌<>◌, is_empty, strip}
use aap_hermes.Prelude.Text.Joined.{concat}
use aap_hermes.Prelude.Dict.{Dict, contains}
use aap_hermes.Gateway.{Platform, SessionSource, Sessions}
use aap_hermes.TurnContext
use aap_hermes.TurnContext.{Context}
use aap_hermes.Ingest.{persist_user_message}
use aap_hermes.PeerThreads
use aap_hermes.Reasoning
use aap_hermes.Reasoning.{Scheduler}
use aap_hermes.Adapter.Stores.{
  Conversation, ConversationStore, Relationship, RelationshipStore, Notice,
}
use aap_hermes.Adapter.GroupNote.{GroupNote, group_trust_note}
use aap_hermes.Adapter.PeerNotes.{reply_window_trust_note, relationship_trust_note, labelled}
use aap_hermes.Adapter.Noise.{is_no_reply, is_gateway_status_noise}

-- A chat envelope that passed `unwrap_chat_envelope`, with the id of its inbox row.
pub record ChatMessage : Type 0 where
  pub iss : String
  pub conversation_id : Option String
  pub body : String
  pub thread_id : Option String
  pub row_id : String
  pub iat : String

pub record MessageEvent : Type 0 where
  pub text : String
  pub source : SessionSource
  pub message_id : Option String
  pub timestamp : String

abbrev pub aap_platform : Platform
aap_platform = record { value = some "aap"; shown = "aap" }

abbrev pub group_chat : String → String
group_chat conv_id = "aap-group:" <> conv_id

-- `session_chat_id`: the group's own session, or the one with the sender
abbrev pub session_chat_id : ChatMessage → String
session_chat_id m = elim m.conversation_id [ none ↦ m.iss | some c ↦ group_chat c ]

abbrev pub session_user_name : ChatMessage → String
session_user_name m = elim m.conversation_id [ none ↦ m.iss | some c ↦ "group:" <> c ]

unfoldable pub event_of : String → ChatMessage → MessageEvent
event_of preamble m = record {
  text = preamble <> labelled m.iss m.body;
  source = record {
    platform = some aap_platform;
    chat_id = some (session_chat_id m);
    chat_name = none;
    chat_type = some "dm";
    user_id = some m.iss;
    user_name = some (session_user_name m);
    thread_id = m.thread_id;
  };
  message_id = some m.row_id;
  timestamp = m.iat;
}

module _ (C : ConversationStore) (repr : String → String) (my_address : String) where
  abbrev pub note_of : String → String → Conversation → GroupNote
  note_of sender conv_id conv = record {
    sender = sender;
    conversation_id = conv_id;
    members = conv.members;
    purpose = conv.purpose;
    name = C.display_name conv;
    goal = conv.goal;
    my_address = my_address;
    is_convener = conv.convener == my_address;
  }

  member_note : String → String → Option Conversation → Option String
  member_note sender conv_id none = none
  member_note sender conv_id (some conv) =
      if contains conv.members sender
      then some (group_trust_note repr (note_of sender conv_id conv))
      else none

  peer_note : String → Option Relationship → Bool → Option String
  peer_note sender (some rel) recent =
      some (relationship_trust_note sender rel.relationship_type rel.resource)
  peer_note sender none recent = if recent then some (reply_window_trust_note sender) else none

  -- The preamble of an authorised message; `none` is a message that is dropped.
  unfoldable pub trust_preamble :
      String → Option String → C.State → Option Relationship → Bool → Option String
  unfolding member_note peer_note
  trust_preamble sender none s rel recent = peer_note sender rel recent
  trust_preamble sender (some conv_id) s rel recent = member_note sender conv_id (C.get conv_id s)

-- The tokens of the turn's sets; the group is set only for a group message.
pub record Tokens : Type 0 where
  pub peer : Option String
  pub group : Option (Option String)
  pub source : Option SessionSource
  pub sent : Option (List String)

abbrev enter_group : Option String → Context → Option (Option String) × Context
enter_group none c = (none, c)
enter_group (some g) c =
    let (token, c') = TurnContext.set_originating_group (some g) c in (some token, c')

-- The four sets at the start of a turn.
abbrev pub enter_turn : String → Option String → SessionSource → Context → Tokens × Context
enter_turn sender group source c =
    let (peer_token, c1) = TurnContext.set_originating_peer (some sender) c in
    let (group_token, c2) = enter_group group c1 in
    let (source_token, c3) = TurnContext.set_current_session_source (some source) c2 in
    let (sent_token, c4) = TurnContext.init_sent_this_turn c3 in
    (
      record { peer = peer_token; group = group_token; source = source_token; sent = sent_token },
      c4,
    )

unfoldable pub enter : ChatMessage → MessageEvent → Context → Tokens × Context
enter m ev c = enter_turn m.iss m.conversation_id ev.source c

abbrev leave_group : Option (Option String) → Context → Context
leave_group none c = c
leave_group (some token) c = TurnContext.reset_originating_group token c

unfoldable pub leave : Tokens → Context → Context
leave t c = TurnContext.reset_originating_peer t.peer (
    leave_group t.group (
      TurnContext.reset_current_session_source t.source
        (TurnContext.reset_sent_this_turn t.sent c)))

-- The `origin` of a signal, as far as it is text.
abbrev pub origin_of : ChatMessage → Dict String
origin_of m =
    ("sender", m.iss)
    ∷ ("conv_id", elim m.conversation_id [ none ↦ "" | some c ↦ c ])
    ∷ ("is_group", if is_some m.conversation_id then "True" else "False")
    ∷ []
