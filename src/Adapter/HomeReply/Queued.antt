-- ===== src/Adapter/HomeReply/Queued.antt =====
-- adapter.py and mirror.py: where a reply of the user ends up.
use aap_hermes.Prelude.{
  ℕ, String, ◌≤◌, ◌+◌, ◌≡◌, sym, subst, ◌∙◌, if◌then◌else◌, Bool, true, false, none, some, List, [],
  ◌∷◌, ◌++◌, arith, Option-cases, inl, inr,
}
use aap_hermes.Gateway.{SessionSource, Row, Sessions, IsSessions}
use aap_hermes.Ingest.{append, user_row, persist_user_message}
use aap_hermes.Reasoning
use aap_hermes.Reasoning.{Scheduler}
use aap_hermes.HomeContexts
use aap_hermes.HomeContexts.{GroupHomeContext, home_reply, load, record_group_home_context, ttl}
use aap_hermes.Prelude.Text.{◌<>◌, is_empty, strip, starts_with}
use aap_hermes.HomeContexts.Latest.{
  AllBefore, reread, clipped, home_reply-record_group_home_context,
}
use aap_hermes.Adapter.HomeReply.{
  home_reply_body, group_source, home_origin, Desk, enqueue_group_home_reply,
  mirror_home_reply_to_group_session,
}

-- The session of a group, as the gateway names it.
abbrev pub session_of : String → SessionSource
session_of id = record {
  platform = some (record { value = some "aap"; shown = "aap" });
  chat_id = some ("aap-group:" <> id);
  chat_name = none;
  chat_type = some "dm";
  user_id = some ("aap-group:" <> id);
  user_name = some ("group:" <> id);
  thread_id = none;
}

-- The label that the group's context is read back with.
abbrev pub label_of : GroupHomeContext → String
label_of c = if is_empty c.group_label then c.conversation_id else c.group_label

module _ (S : Sessions) (L : IsSessions S) (my_address : String) (loop : Bool)
    (d : Desk S my_address) where
  -- The reply is the last message of the group's session, after those that were there, and the
  -- scheduler is signalled for that session.
  pub record IsQueued (id label text : String) (after : Desk S my_address) : Type 0 where
    pub k : Scheduler
    pub before_db : S.Db
    pub after_db : S.Db
    pub found_db : S.Db
    pub sid : String
    pub decoupled : d.scheduler ≡ some k
    pub reached : d.db ≡ some before_db
    pub left : after.db ≡ some after_db
    pub session : S.get_or_create_session (session_of id) before_db ≡ some (sid, found_db)
    pub written :
        (rows : List Row)
        → S.get_messages sid before_db ≡ some rows
        → S.get_messages sid after_db
          ≡ some (rows ++ user_row (home_reply_body id label text) none false ∷ [])
    pub signalled :
        after.scheduler
        ≡ some (Reasoning.signal ("aap-group:" <> id) (session_of id) (home_origin my_address id) k)

  enqueue-IsQueued :
      (id label text : String)
      → (enqueue_group_home_reply S my_address loop id label text d).0 ≡ true
      → IsQueued id label text (enqueue_group_home_reply S my_address loop id label text d).1
  unfolding enqueue_group_home_reply persist_user_message append
  enqueue-IsQueued id label text done = elim (Option-cases d.scheduler) [
    | inl coupled ↦ absurd (ground (arith, done, coupled))
    | inr (k, decoupled) ↦ elim (Option-cases d.db) [
      | inl unreached ↦ absurd (ground (arith, done, decoupled, unreached))
      | inr (db, reached) ↦ elim (Option-cases (S.get_or_create_session (group_source id) db)) [
        | inl failed ↦ absurd (ground (arith, done, decoupled, reached, failed))
        | inr ((sid, created), session) ↦
            let row = user_row (home_reply_body id label text) none false in
            elim (Option-cases (S.append_message sid row created)) [
              | inl failed ↦ absurd (ground (arith, done, decoupled, reached, session, failed))
              | inr (db', appended) ↦ record {
                k = k;
                before_db = db;
                after_db = db';
                found_db = created;
                sid = sid;
                decoupled = decoupled;
                reached = reached;
                left = ground (arith, done, decoupled, reached, session, appended);
                session = session;
                written = λ rows read.
                    L.get-append_self sid row created db' rows appended
                      (L.get-create (group_source id) db created sid sid session ∙ read);
                signalled = ground (arith, done, decoupled, reached, session, appended);
              }
            ]
      ]
    ]
  ]

  enqueue_done :
      (k : Scheduler) (id label text sid : String) (db created db' : S.Db)
      → d.scheduler ≡ some k
      → d.db ≡ some db
      → loop ≡ true
      → is_empty id ≡ false
      → is_empty text ≡ false
      → S.get_or_create_session (session_of id) db ≡ some (sid, created)
      → S.append_message sid (user_row (home_reply_body id label text) none false) created
        ≡ some db'
      → (enqueue_group_home_reply S my_address loop id label text d).0 ≡ true
  unfolding enqueue_group_home_reply persist_user_message append
  enqueue_done k id label text sid db created db' decoupled reached runs named full session
        appended =
      ground (arith, decoupled, reached, runs, named, full, session, appended)

  bridged_lem :
      (later : ℕ) (text platform chat : String) (file : HomeContexts.File) (c : GroupHomeContext)
      (reply : String)
      → home_reply later true text platform chat file ≡ some (some (c, reply))
      → mirror_home_reply_to_group_session S my_address loop later true text platform chat file d
        ≡ enqueue_group_home_reply S my_address loop c.conversation_id c.group_label reply d
  unfolding mirror_home_reply_to_group_session
  bridged_lem later text platform chat file c reply h = ground (arith, h)

  -- After a group's message was recorded for a home chat, a reply of the user in that chat is the
  -- last message of that group's session, after those that were there, and the scheduler is signalled
  -- for that session; the reply does not go to the chat's own turn. This holds where the reply comes
  -- within the time to live, is not blank and is no command, the write of the context succeeded, the
  -- contexts that were stored before are older, ingest is decoupled, the event loop runs, and the
  -- gateway finds the session and appends the message.
  pub mirror_home_reply-IsQueued :
      (now later : ℕ) (new : GroupHomeContext) (text : String) (file after : HomeContexts.File)
      (cs : List GroupHomeContext) (k : Scheduler) (sid : String) (db created db' : S.Db)
      → is_empty new.conversation_id ≡ false
      → is_empty new.platform ≡ false
      → is_empty new.chat_id ≡ false
      → is_empty (strip text) ≡ false
      → starts_with (strip text) "/aap" ≡ false
      → load now file ≡ some cs
      → AllBefore new.recorded_at cs
      → later ≤ new.recorded_at + ttl
      → record_group_home_context now true new file ≡ some after
      → d.scheduler ≡ some k
      → d.db ≡ some db
      → loop ≡ true
      → S.get_or_create_session (session_of new.conversation_id) db ≡ some (sid, created)
      → S.append_message sid
          (user_row (home_reply_body new.conversation_id (label_of new) (strip text)) none false)
          created
        ≡ some db'
      → let outcome =
          mirror_home_reply_to_group_session S my_address loop later true text new.platform
            new.chat_id after d in
        (outcome.0 ≡ true) × IsQueued new.conversation_id (label_of new) (strip text) outcome.1
  mirror_home_reply-IsQueued now later new text file after cs k sid db created db' named on_platform
        in_chat full plain loaded before fresh wrote decoupled reached runs session appended =
      let found =
        home_reply-record_group_home_context now later new text file after cs named on_platform
          in_chat full plain loaded before fresh wrote in
      let same =
        bridged_lem later text new.platform new.chat_id after (reread (clipped new)) (strip text)
          found in
      let done =
        enqueue_done k new.conversation_id (label_of new) (strip text) sid db created db' decoupled
          reached runs named full session appended in
      subst
        (λ outcome.
          (outcome.0 ≡ true) × IsQueued new.conversation_id (label_of new) (strip text) outcome.1)
        (sym same) (done, enqueue-IsQueued new.conversation_id (label_of new) (strip text) done)
