-- ===== src/Adapter/HomeReply.antt =====
-- adapter.py: `enqueue_group_home_reply`. mirror.py: `mirror_home_reply_to_group_session`.
-- _runtime.py: `predispatch_group_reply_bridge`. The user's reply in a home chat is written to the
-- session of the group that the chat was last told of, and a turn of that session is signalled.
pub mod Queued
use aap_hermes.Prelude.{
  ℕ, String, Bool, true, false, Option, none, some, List, [], ◌∷◌, ◌||◌, ◌==◌, if◌then◌else◌,
}
use aap_hermes.Prelude.Text.{◌<>◌, is_empty}
use aap_hermes.Prelude.Text.Joined.{concat}
use aap_hermes.Gateway.{Platform, SessionSource, Sessions}
use aap_hermes.Ingest.{persist_user_message}
use aap_hermes.Reasoning
use aap_hermes.Reasoning.{Scheduler}
use aap_hermes.HomeContexts
use aap_hermes.HomeContexts.{GroupHomeContext, home_reply}
use aap_hermes.Adapter.Chat.{group_chat, aap_platform}

-- `"[Home-channel reply from my user …"`
unfoldable pub home_reply_body : String → String → String → String
unfolding concat
home_reply_body conversation_id group_label text = concat (
    "[Home-channel reply from my user for AAP group '" ∷ group_label ∷ "' (conversation_id: "
    ∷ conversation_id ∷ ")]: " ∷ text ∷ [])

-- The session of the group.
abbrev pub group_source : String → SessionSource
group_source conversation_id = record {
  platform = some aap_platform;
  chat_id = some (group_chat conversation_id);
  chat_name = none;
  chat_type = some "dm";
  user_id = some (group_chat conversation_id);
  user_name = some ("group:" <> conversation_id);
  thread_id = none;
}

abbrev pub home_origin : String → String → Reasoning.Origin
home_origin my_address conversation_id =
    ("sender", my_address)
    ∷ ("conv_id", conversation_id)
    ∷ ("is_group", "True")
    ∷ ("home_reply", "True")
    ∷ []

module _ (S : Sessions) (my_address : String) where
  -- The database of the gateway's runner, `none` if it cannot be reached, and the scheduler, `none`
  -- unless ingest is decoupled.
  pub record Desk : Type 0 where
    pub db : Option S.Db
    pub scheduler : Option Scheduler

  queue_persisted : String → Option String × Option S.Db → Scheduler → Desk → Bool × Desk
  queue_persisted id (none, db) k d = (false, record d { db = db })
  queue_persisted id (some sid, db) k d = (
    true,
    record {
      db = db;
      scheduler =
          some (Reasoning.signal (group_chat id) (group_source id) (home_origin my_address id) k);
    },
  )

  -- `enqueue_group_home_reply`; `loop` says whether an event loop runs.
  unfoldable pub enqueue_group_home_reply : Bool → String → String → String → Desk → Bool × Desk
  unfolding queue_persisted persist_user_message home_reply_body
  enqueue_group_home_reply loop id label text d =
      if is_empty id || is_empty text then (false, d) else elim d.scheduler [
        | none ↦ (false, d)
        | some k ↦
            if loop
            then queue_persisted id
                (persist_user_message S (group_source id) (home_reply_body id label text) none false
                  d.db)
                k d
            else (false, d)
      ]

  -- `mirror_home_reply_to_group_session`; `none` is an exception, on which
  -- `predispatch_group_reply_bridge` lets the event pass.
  unfoldable pub mirror_home_reply_to_group_session :
      Bool → ℕ → Bool → String → String → String → HomeContexts.File → Desk → Bool × Desk
  unfolding enqueue_group_home_reply
  mirror_home_reply_to_group_session loop now on text platform chat file d =
      elim (home_reply now on text platform chat file) [
        | none ↦ (false, d)
        | some none ↦ (false, d)
        | some (some (c, reply)) ↦
            enqueue_group_home_reply loop c.conversation_id c.group_label reply d
      ]
