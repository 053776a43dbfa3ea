-- ===== src/Origins/Fields.antt =====
-- service_request_origins.py: `RequestOrigin`, how it is made from a session source, and its form in
-- the file.
use aap_hermes.Prelude.{
  ◌>>=◌, ℕ, String, Bool, true, false, Option, none, some, List, [], ◌∷◌, if◌then◌else◌,
}
use aap_hermes.Prelude.Text.{replace, is_empty}
use aap_hermes.Prelude.Dict.{Dict, contains, lookup}
use aap_hermes.Gateway.{Platform, SessionSource}

-- A value of the JSON file: a text, `null`, or any other value, by its number.
pub data Value : Type 0 where
  text : String → Value
  null : Value
  json : ℕ → Value

-- `RequestOrigin(**entry)` checks no types, so each field may hold any value.
pub record RequestOrigin : Type 0 where
  pub platform : Value
  pub chat_id : Value
  pub chat_type : Value
  pub user_id : Value
  pub user_name : Value
  pub thread_id : Value
  pub chat_name : Value
  pub target_address : Value
  pub group_conversation_id : Value
  pub created_at : Value

-- A value of the file's dict: a dict again, or anything else.
pub data Entry : Type 0 where
  object : Dict Value → Entry
  other : Entry

-- What `datetime.fromisoformat` makes of a text: an error, a time with no zone, or an instant in
-- microseconds.
pub data Stamp : Type 0 where
  invalid : Stamp
  naive : Stamp
  aware : ℕ → Stamp

-- The two functions of `datetime` that the module uses.
pub record Calendar : Type 0 where
  pub isoformat : ℕ → String
  pub fromisoformat : String → Stamp

abbrev pub or_null : Option String → Value
or_null none = null
or_null (some s) = text s

-- `x or y`, where `x` may be `None` or empty
abbrev pub or_text : Option String → String → String
or_text none d = d
or_text (some s) d = if is_empty s then d else s

abbrev pub platform_text : Option Platform → String
platform_text none = ""
platform_text (some p) = or_text p.value p.shown

unfoldable pub utcnow_iso : Calendar → ℕ → String
utcnow_iso cal now = replace "+00:00" "Z" (cal.isoformat now)

unfoldable pub from_session_source :
    Calendar → ℕ → SessionSource → String → Option String → RequestOrigin
from_session_source cal now source target group = record {
  platform = text (platform_text source.platform);
  chat_id = text (or_text source.chat_id "");
  chat_type = text (or_text source.chat_type "dm");
  user_id = or_null source.user_id;
  user_name = or_null source.user_name;
  thread_id = or_null source.thread_id;
  chat_name = or_null source.chat_name;
  target_address = text target;
  group_conversation_id = or_null group;
  created_at = text (utcnow_iso cal now);
}

-- `asdict(origin)`
unfoldable pub asdict : RequestOrigin → Dict Value
asdict o =
    ("platform", o.platform)
    ∷ ("chat_id", o.chat_id)
    ∷ ("chat_type", o.chat_type)
    ∷ ("user_id", o.user_id)
    ∷ ("user_name", o.user_name)
    ∷ ("thread_id", o.thread_id)
    ∷ ("chat_name", o.chat_name)
    ∷ ("target_address", o.target_address)
    ∷ ("group_conversation_id", o.group_conversation_id)
    ∷ ("created_at", o.created_at)
    ∷ []

abbrev pub field_names : List String
field_names =
    "platform" ∷ "chat_id" ∷ "chat_type" ∷ "user_id" ∷ "user_name" ∷ "thread_id" ∷ "chat_name"
    ∷ "target_address" ∷ "group_conversation_id" ∷ "created_at" ∷ []

unfoldable pub no_other_fields : Dict Value → Bool
unfolding contains
no_other_fields [] = true
no_other_fields ((k, v) ∷ d) = if contains field_names k then no_other_fields d else false

-- `RequestOrigin(**entry)`: a field that is missing or unknown is a `TypeError`.
unfoldable pub from_dict : Dict Value → Option RequestOrigin
unfolding no_other_fields lookup
from_dict d = do
  platform ← lookup "platform" d
  chat_id ← lookup "chat_id" d
  chat_type ← lookup "chat_type" d
  user_id ← lookup "user_id" d
  user_name ← lookup "user_name" d
  thread_id ← lookup "thread_id" d
  chat_name ← lookup "chat_name" d
  target_address ← lookup "target_address" d
  group_conversation_id ← lookup "group_conversation_id" d
  created_at ← lookup "created_at" d
  if no_other_fields d
      then some (record {
        platform = platform;
        chat_id = chat_id;
        chat_type = chat_type;
        user_id = user_id;
        user_name = user_name;
        thread_id = thread_id;
        chat_name = chat_name;
        target_address = target_address;
        group_conversation_id = group_conversation_id;
        created_at = created_at;
      })
      else none

abbrev pub as_text : Value → Option String
as_text (text s) = some s
as_text null = none
as_text (json n) = none
