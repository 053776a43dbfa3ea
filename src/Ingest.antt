-- ===== src/Ingest.antt =====
-- ingest.py: the durable write of an inbound message, before any turn runs.
use aap_hermes.Prelude.{String, Bool, Option, none, some}
use aap_hermes.Gateway.{SessionSource, Row, Sessions}

abbrev pub user_row : String → Option String → Bool → Row
user_row content message_id observed = record {
  role = some "user";
  content = some content;
  platform_message_id = message_id;
  observed = observed;
}

module _ (S : Sessions) where
  -- The session's id if the row was written, and the database. `none` is a runner that cannot be
  -- reached or that lacks one of the two stores.
  unfoldable pub append : String → Row → S.Db → Option String × S.Db
  append id row created = elim (S.append_message id row created) [
    | none ↦ (none, created)
    | some db' ↦ (some id, db')
  ]

  unfoldable pub persist_user_message :
      SessionSource → String → Option String → Bool → Option S.Db → Option String × Option S.Db
  unfolding append
  persist_user_message source content message_id observed none = (none, none)
  persist_user_message source content message_id observed (some db) =
      elim (S.get_or_create_session source db) [
        | none ↦ (none, some db)
        | some (id, created) ↦
            let (sid, db') = append id (user_row content message_id observed) created in
            (sid, some db')
      ]
