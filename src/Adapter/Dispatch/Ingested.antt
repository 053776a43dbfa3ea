-- ===== src/Adapter/Dispatch/Ingested.antt =====
-- What the anti-relay predicate sees of the messages that decoupled ingest writes.
use aap_hermes.Prelude.{
  String, ◌≡◌, ◌∙◌, Bool, false, Option, none, some, List, [], ◌∷◌, ◌++◌, arith, inl, inr,
  Option-cases, Bool-cases, ◌==◌, ==_iff,
}
use aap_hermes.Gateway.{Sessions, IsSessions, Row, SessionSource}
use aap_hermes.AntiRelay.{
  Runner, StoreEntry, row_sender, senders, agent_prefix, peers_who_have_messaged_session,
}
use aap_hermes.Ingest.{append, user_row, persist_user_message}
use aap_hermes.Reasoning.{Scheduler}
use aap_hermes.Adapter.Stores.{ConversationStore, RelationshipStore}
use aap_hermes.Adapter.Chat.{ChatMessage, event_of, trust_preamble}
use aap_hermes.Adapter.Chat.Gate.{agent_prefix-event_of}
use aap_hermes.Adapter.Dispatch.{
  World, Handler, Deliver, dispatch_chat, accept_chat, ingest, thread_recorded,
}

senders-append_unlabelled :
    (rows : List Row) (row : Row)
    → row_sender row ≡ none
    → senders (rows ++ row ∷ []) ≡ senders rows
unfolding senders
senders-append_unlabelled [] row h = ground arith
senders-append_unlabelled (r ∷ rows) row h = ground (arith, senders-append_unlabelled rows row h)

unlabelled_row :
    (content : String) (message_id : Option String) (observed : Bool)
    → agent_prefix content ≡ none
    → row_sender (user_row content message_id observed) ≡ none
unfolding row_sender ◌==◌
unlabelled_row content message_id observed h = h

module _ (S : Sessions) (L : IsSessions S) where
  -- The gateway's runner over a database.
  abbrev pub runner_of : List StoreEntry → Option S.Db → Option Runner
  runner_of entries none = none
  runner_of entries (some db) =
      some (record { session_db = some (λ id. S.get_messages id db); entries = some entries })

  abbrev pub seen : List StoreEntry → Option S.Db → String → List String
  seen entries db id = peers_who_have_messaged_session (runner_of entries db) id

  seen-rows :
      (entries : List StoreEntry) (db : S.Db) (id : String) (rows : List Row)
      → S.get_messages id db ≡ some rows
      → seen entries (some db) id ≡ senders rows
  unfolding peers_who_have_messaged_session
  seen-rows entries db id rows h = ground (arith, h)

  seen-append :
      (entries : List StoreEntry) (db db' : S.Db) (to id : String) (row : Row) (rows : List Row)
      → S.append_message to row db ≡ some db'
      → row_sender row ≡ none
      → S.get_messages id db ≡ some rows
      → seen entries (some db') id ≡ senders rows
  seen-append entries db db' to id row rows written plain read = elim (Bool-cases (to == id)) [
    | inl same ↦
        seen-rows entries db' id (rows ++ row ∷ [])
          (ground (arith, same, ==_iff to id, L.get-append_self to row db db' rows written))
        ∙ senders-append_unlabelled rows row plain
    | inr differ ↦
        seen-rows entries db' id rows
          (ground (arith, differ, ==_iff to id, L.get-append_ne to id row db db' written))
  ]

  seen-written :
      (entries : List StoreEntry) (db : S.Db) (to id : String) (row : Row) (rows : List Row)
      → row_sender row ≡ none
      → S.get_messages id db ≡ some rows
      → seen entries (some (append S to row db).1) id ≡ senders rows
  unfolding append
  seen-written entries db to id row rows plain read =
      elim (Option-cases (S.append_message to row db)) [
        | inl failed ↦ ground (arith, failed, seen-rows entries db id rows read)
        | inr (db', written) ↦
            ground (arith, written, seen-append entries db db' to id row rows written plain read)
      ]

  seen-persist :
      (entries : List StoreEntry) (source : SessionSource) (content : String)
      (message_id : Option String) (db : S.Db) (id : String) (rows : List Row)
      → agent_prefix content ≡ none
      → S.get_messages id db ≡ some rows
      → seen entries (persist_user_message S source content message_id false (some db)).1 id
        ≡ senders rows
  unfolding persist_user_message
  seen-persist entries source content message_id db id rows plain read =
      elim (Option-cases (S.get_or_create_session source db)) [
        | inl failed ↦ ground (arith, failed, seen-rows entries db id rows read)
        | inr ((to, created), found) ↦ ground (
          arith,
          found,
          seen-written entries created to id (user_row content message_id false) rows
              (unlabelled_row content message_id false plain)
              (L.get-create source db created to id found ∙ read),
        )
      ]

module _ (C : ConversationStore) (R : RelationshipStore) (S : Sessions) (L : IsSessions S)
    (repr : String → String) (my_address : String) (handler : Handler C R S)
    (deliver : Deliver C R S) (writes recent : Bool) (entries : List StoreEntry) where
  seen-accept :
      (m : ChatMessage) (p : String) (w : World C R S) (k : Scheduler) (db : S.Db) (id : String)
      (rows : List Row)
      → agent_prefix (event_of p m).text ≡ none
      → w.scheduler ≡ some k
      → w.db ≡ some db
      → S.get_messages id db ≡ some rows
      → seen S L entries (accept_chat C R S handler deliver writes m p w).db id ≡ senders rows
  unfolding accept_chat ingest
  seen-accept m p w k db id rows plain decoupled reached read =
      elim (Option-cases (thread_recorded C R S writes m w)) [
        | inl failed ↦ ground (arith, seen-rows S L entries db id rows read)
        | inr (threads, recorded) ↦ ground (
          arith,
          seen-persist S L entries (event_of p m).source (event_of p m).text
              (event_of p m).message_id db id rows plain read,
        )
      ]

  -- Where ingest is decoupled and the database can be reached and read, a chat message adds nobody
  -- to the peers that the anti-relay predicate finds in any session, be it written or not: the
  -- predicate looks for the sender's label at the start of a row, and each row starts with a
  -- preamble.
  pub seen-dispatch_chat :
      (m : ChatMessage) (w : World C R S) (k : Scheduler) (db : S.Db) (id : String)
      (rows : List Row)
      → w.scheduler ≡ some k
      → w.db ≡ some db
      → S.get_messages id db ≡ some rows
      → seen S L entries
          (dispatch_chat C R S repr my_address handler deliver writes recent m w).db
          id
        ≡ seen S L entries w.db id
  unfolding dispatch_chat
  seen-dispatch_chat m w k db id rows decoupled reached read =
      elim (Option-cases (
        trust_preamble C repr my_address m.iss m.conversation_id w.conversations
          (R.any_relationship_with m.iss w.relationships) recent)) [
            | inl dropped ↦ ground arith
            | inr (p, passed) ↦ ground (
              arith,
              passed,
              seen-accept m p w k db id rows
                  (agent_prefix-event_of C repr my_address m w.conversations
                    (R.any_relationship_with m.iss w.relationships) recent p passed)
                  decoupled reached read,
              seen-rows S L entries db id rows read,
            )
          ]
