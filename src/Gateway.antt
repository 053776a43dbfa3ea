-- ===== src/Gateway.antt =====
-- The shapes of the gateway's objects that the plugin builds and reads, as tests/_hermes_compat.py
-- declares them.
use aap_hermes.Prelude.{String, Bool, Option, some, List, [], ◌∷◌, ◌++◌, ◌≡◌, ◌≢◌}

-- `Platform`: its `value`, and what `str` makes of it.
pub record Platform : Type 0 where
  pub value : Option String
  pub shown : String

pub record SessionSource : Type 0 where
  pub platform : Option Platform
  pub chat_id : Option String
  pub chat_name : Option String
  pub chat_type : Option String
  pub user_id : Option String
  pub user_name : Option String
  pub thread_id : Option String

-- A row of the session database; `content` is `none` if it is no text.
pub record Row : Type 0 where
  pub role : Option String
  pub content : Option String
  pub platform_message_id : Option String
  pub observed : Bool

-- The gateway's session store and session database. `none` is an exception, which changes nothing.
pub record Sessions : Type 1 where
  pub Db : Type 0
  pub get_or_create_session : SessionSource → Db → Option (String × Db)
  pub append_message : String → Row → Db → Option Db
  pub get_messages : String → Db → Option (List Row)

-- What the plugin relies on: a session's messages are its rows in the order in which they came, and
-- looking a session up writes none.
pub record IsSessions (S : Sessions) : Type 0 where
  pub get-create :
      (source : SessionSource) (db db' : S.Db) (id other : String)
      → S.get_or_create_session source db ≡ some (id, db')
      → S.get_messages other db' ≡ S.get_messages other db
  pub get-append_self :
      (id : String) (row : Row) (db db' : S.Db) (rows : List Row)
      → S.append_message id row db ≡ some db'
      → S.get_messages id db ≡ some rows
      → S.get_messages id db' ≡ some (rows ++ row ∷ [])
  pub get-append_ne :
      (id other : String) (row : Row) (db db' : S.Db)
      → S.append_message id row db ≡ some db'
      → id ≢ other
      → S.get_messages other db' ≡ S.get_messages other db
