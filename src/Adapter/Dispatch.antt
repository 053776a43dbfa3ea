-- ===== src/Adapter/Dispatch.antt =====
-- adapter.py: `send`, and the end of `_dispatch`: an authorised message is mirrored, and then
-- written for a later turn, or handed to a turn whose text may go back to the sender.
pub mod Drops
pub mod Turn
pub mod Ingested
use aap_hermes.Prelude.{
  String, Bool, true, false, not, Option, none, some, List, [], ◌∷◌, ◌++◌, ◌&&◌, ◌||◌, ◌==◌,
  is_some, if◌then◌else◌,
}
use aap_hermes.Prelude.Text.{◌<>◌, is_empty, strip}
use aap_hermes.Prelude.Text.Joined.{concat}
use aap_hermes.Prelude.Dict.{Dict, contains}
use aap_hermes.Gateway.{Platform, SessionSource, Sessions}
use aap_hermes.TurnContext
use aap_hermes.TurnContext.{Context}
use aap_hermes.Ingest.{persist_user_message}
use aap_hermes.PeerThreads
use aap_hermes.Reasoning
use aap_hermes.Reasoning.{Scheduler}
use aap_hermes.Adapter.Stores.{
  Conversation, ConversationStore, Relationship, RelationshipStore, Notice,
}
use aap_hermes.Adapter.GroupNote.{GroupNote, group_trust_note}
use aap_hermes.Adapter.PeerNotes.{reply_window_trust_note, relationship_trust_note, labelled}
use aap_hermes.Adapter.Noise.{is_no_reply, is_gateway_status_noise}
use aap_hermes.Adapter.Chat.{
  ChatMessage, MessageEvent, session_chat_id, event_of, trust_preamble, enter, leave, origin_of,
}

-- An envelope that was sent: to whom, the text, and the thread.
pub record Sent : Type 0 where
  pub to : String
  pub content : String
  pub thread_id : Option String

module _ (C : ConversationStore) (R : RelationshipStore) (S : Sessions) where
  -- What the adapter holds or reaches while it dispatches a chat message. `db` is `none` if the
  -- gateway's runner cannot be reached; `scheduler` is `none` unless ingest is decoupled.
  pub record World : Type 0 where
    pub conversations : C.State
    pub relationships : R.State
    pub threads : PeerThreads.File
    pub db : Option S.Db
    pub scheduler : Option Scheduler
    pub context : Context
    pub notices : List Notice
    pub group_contexts : List (String × String × String × String)
    pub sent : List Sent
    -- the peers of `outbound_contacts`, and what goes to the transcripts of the peers' sessions
    pub contacted : List String
    pub transcripts : List (String × String)

  abbrev pub conversation_of : Option String → C.State → Option Conversation
  conversation_of none s = none
  conversation_of (some c) s = C.get c s

  -- `_conv.display_name() if _conv else conv_id`
  abbrev pub group_label : String → Option Conversation → String
  group_label c none = c
  group_label c (some conv) = C.display_name conv

  -- The handler of the gateway: it may call any tool, so it may change all of the world; the reply
  -- is `none` where it raises or returns no text.
  abbrev pub Handler : Type 0
  Handler = MessageEvent → World → Option String × World

  -- The relay's answer to an envelope: its id, or `none` for an error.
  abbrev pub Deliver : Type 0
  Deliver = Sent → Option String

  deliver_reply : Deliver → World → Sent → Bool × World
  deliver_reply deliver w e = elim (deliver e) [
    | none ↦ (false, w)
    | some id ↦ (
      true,
      record w {
        sent = w.sent ++ e ∷ [];
        context = TurnContext.record_outbound_send e.to w.context;
        notices =
            w.notices
            ++ record {
              sender = none;
              recipient = some e.to;
              message = e.content;
              thread_id = none;
              group_label = none;
            }
              ∷ [];
      },
    )
  ]

  -- `adapter.send`
  unfoldable pub send : Deliver → String → String → World → Bool × World
  unfolding deliver_reply
  send deliver chat_id content w =
      if is_gateway_status_noise content
      then (false, w)
      else if is_some (R.any_relationship_with chat_id w.relationships)
      then deliver_reply deliver w (record {
        to = chat_id;
        content = content;
        thread_id = TurnContext.reply_thread_id_for chat_id w.context;
      })
      else (false, w)

  -- The reply of the turn goes to the sender of a 1:1 message, unless it says that there is none or
  -- a tool has already sent one.
  unfoldable pub auto_reply : Deliver → ChatMessage → String → World → World
  unfolding send
  auto_reply deliver m reply_text w =
      if is_some m.conversation_id
      then w
      else if is_no_reply reply_text
      then w
      else if TurnContext.already_sent_to m.iss w.context
      then w
      else (send deliver m.iss reply_text w).1

  abbrev pub reply_of : Option String → String
  reply_of none = ""
  reply_of (some s) = s

  -- The turn itself, from the first `set_` to the last `reset_`.
  unfoldable pub run_turn : Handler → Deliver → ChatMessage → MessageEvent → World → World
  unfolding enter leave auto_reply
  run_turn handler deliver m ev w =
      let (tokens, entered) = enter m ev w.context in
      let (response, after) = handler ev (record w { context = entered }) in
      let w' = auto_reply deliver m (reply_of response) after in
      record w' { context = leave tokens w'.context }

  chat_notice : ChatMessage → Option Conversation → Notice
  chat_notice m conv = record {
    sender = some m.iss;
    recipient = none;
    message = m.body;
    thread_id = m.thread_id;
    group_label = elim m.conversation_id [ none ↦ none | some c ↦ some (group_label c conv) ];
  }

  -- The home sessions are told of a group message, unless the group's name is empty.
  home_context : ChatMessage → Option Conversation → List (String × String × String × String)
  home_context m conv = elim m.conversation_id [
    | none ↦ []
    | some c ↦
        if is_empty (group_label c conv) then [] else (group_label c conv, m.iss, m.body, c) ∷ []
  ]

  -- The message is written to the session database, and the session's scheduler is signalled.
  unfoldable pub ingest : ChatMessage → MessageEvent → Scheduler → World → World
  unfolding persist_user_message
  ingest m ev scheduler w =
      let (sid, db') = persist_user_message S ev.source ev.text ev.message_id false w.db in
      record w {
        db = db';
        scheduler = some (Reasoning.signal (session_chat_id m) ev.source (origin_of m) scheduler);
      }

  -- 1:1 messages leave their thread; `none` is an exception.
  thread_recorded : Bool → ChatMessage → World → Option PeerThreads.File
  thread_recorded writes m w = elim m.conversation_id [
    | none ↦ PeerThreads.record_inbound_thread writes m.iss m.thread_id w.threads
    | some c ↦ some w.threads
  ]

  -- An authorised message: mirrored, and then written for a later turn, or handed to one now.
  unfoldable pub accept_chat : Handler → Deliver → Bool → ChatMessage → String → World → World
  unfolding run_turn ingest chat_notice home_context thread_recorded
  accept_chat handler deliver writes m preamble w =
      let conv = conversation_of m.conversation_id w.conversations in
      elim (thread_recorded writes m w) [
        | none ↦ w
        | some threads' ↦
            let w' = record w {
              threads = threads';
              notices = w.notices ++ chat_notice m conv ∷ [];
              group_contexts = w.group_contexts ++ home_context m conv;
            } in
            let ev = event_of preamble m in
            elim w'.scheduler [
              | none ↦ run_turn handler deliver m ev w'
              | some scheduler ↦ ingest m ev scheduler w'
            ]
      ]

  -- The chat part of `_dispatch`; `recent` is what `contacted_within` answers for the sender.
  unfoldable pub dispatch_chat :
      (String → String) → String → Handler → Deliver → Bool → Bool → ChatMessage → World → World
  unfolding accept_chat
  dispatch_chat repr my_address handler deliver writes recent m w =
      elim (trust_preamble C repr my_address m.iss m.conversation_id w.conversations
        (R.any_relationship_with m.iss w.relationships) recent) [
          | none ↦ w
          | some preamble ↦ accept_chat handler deliver writes m preamble w
        ]
