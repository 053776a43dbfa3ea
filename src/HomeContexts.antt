-- ===== src/HomeContexts.antt =====
-- mirror.py: the file that says which group each home chat was last told of, and the reply of the
-- user that it routes back to that group.
pub mod Latest
use aap_hermes.Prelude.{
  ◌>>=◌, ℕ, zero, suc, ◌+◌, ◌-◌, String, Bool, true, false, not, ◌&&◌, ◌||◌, Option, none, some,
  List, [], ◌∷◌, ◌++◌, ltb, ◌==◌, if◌then◌else◌,
}
use aap_hermes.Prelude.Text.{is_empty, strip, starts_with, take_text}

-- `GroupHomeContext`; `recorded_at` is in microseconds.
pub record GroupHomeContext : Type 0 where
  pub platform : String
  pub chat_id : String
  pub conversation_id : String
  pub group_label : String
  pub sender : String
  pub text_preview : String
  pub recorded_at : ℕ

-- An item of the file: a key that is missing is `none`, and one with a default also where it is
-- `null`; other values count as what `str` or `float` makes of them.
pub record Item : Type 0 where
  pub platform : Option String
  pub chat_id : Option String
  pub conversation_id : Option String
  pub group_label : Option String
  pub sender : Option String
  pub text_preview : Option String
  pub recorded_at : Option ℕ

-- The file: absent or no JSON, a document that is no object, on which `data.get` raises, or a list
-- of items, where one that is no object is `none`.
pub data File : Type 0 where
  missing : File
  no_object : File
  contexts : List (Option Item) → File

abbrev or_default : Option String → String → String
or_default none d = d
or_default (some s) d = if is_empty s then d else s

abbrev or_zero : Option ℕ → ℕ
or_zero none = 0
or_zero (some n) = n

unfoldable pub decode : Option Item → Option GroupHomeContext
decode none = none
decode (some item) = do
  platform ← item.platform
  chat_id ← item.chat_id
  conversation_id ← item.conversation_id
  some (record {
    platform = platform;
    chat_id = chat_id;
    conversation_id = conversation_id;
    group_label = or_default item.group_label conversation_id;
    sender = or_default item.sender "";
    text_preview = or_default item.text_preview "";
    recorded_at = or_zero item.recorded_at;
  })

unfoldable pub encode : GroupHomeContext → Option Item
encode c = some (record {
  platform = some c.platform;
  chat_id = some c.chat_id;
  conversation_id = some c.conversation_id;
  group_label = some c.group_label;
  sender = some c.sender;
  text_preview = some c.text_preview;
  recorded_at = some c.recorded_at;
})

-- the items as they are written
unfoldable pub encode_all : List GroupHomeContext → List (Option Item)
encode_all [] = []
encode_all (c ∷ cs) = encode c ∷ encode_all cs

-- `_GROUP_HOME_CONTEXT_TTL_SECONDS`, in microseconds
abbrev pub ttl : ℕ
ttl = 1800000000

-- `ctx.recorded_at >= cutoff`
abbrev pub is_recent : ℕ → GroupHomeContext → Bool
is_recent now c = not (ltb (c.recorded_at + ttl) now)

unfoldable pub recent : ℕ → List (Option Item) → List GroupHomeContext
recent now [] = []
recent now (item ∷ rest) =
    let later = recent now rest in
    elim (decode item) [ none ↦ later | some c ↦ if is_recent now c then c ∷ later else later ]

-- `_load_group_home_contexts`; `none` is an exception.
unfoldable pub load : ℕ → File → Option (List GroupHomeContext)
unfolding recent
load now missing = some []
load now no_object = none
load now (contexts items) = some (recent now items)

abbrev pub length : List GroupHomeContext → ℕ
length [] = 0
length (c ∷ cs) = suc (length cs)

unfoldable pub drop : ℕ → List GroupHomeContext → List GroupHomeContext
drop zero cs = cs
drop (suc n) [] = []
drop (suc n) (c ∷ cs) = drop n cs

-- `contexts[-20:]`
unfoldable pub last_twenty : List GroupHomeContext → List GroupHomeContext
unfolding drop
last_twenty cs = drop (length cs - 20) cs

abbrev pub is_same : GroupHomeContext → GroupHomeContext → Bool
is_same new c =
    c.platform == new.platform
    && c.chat_id == new.chat_id
    && c.conversation_id == new.conversation_id

unfoldable pub others : GroupHomeContext → List GroupHomeContext → List GroupHomeContext
others new [] = []
others new (c ∷ cs) = let rest = others new cs in if is_same new c then rest else c ∷ rest

-- What `_save_group_home_contexts` leaves; a write that fails is logged.
unfoldable pub save : Bool → List GroupHomeContext → File → File
save writes cs file = if writes then contexts (encode_all cs) else file

-- `record_group_home_context`: `new` has the arguments, with the whole text, and the time of the
-- record; `now` is the time of the load.
unfoldable pub record_group_home_context : ℕ → Bool → GroupHomeContext → File → Option File
record_group_home_context now writes new file =
    if is_empty new.conversation_id then some file else elim (load now file) [
      | none ↦ none
      | some cs ↦ some (
          save writes
            (last_twenty (
              others new cs ++ (record new { text_preview = take_text 240 new.text_preview }) ∷ []))
            file)
    ]

unfoldable pub matches : String → String → List GroupHomeContext → List GroupHomeContext
matches platform chat [] = []
matches platform chat (c ∷ cs) =
    let rest = matches platform chat cs in
    if c.platform == platform && c.chat_id == chat then c ∷ rest else rest

-- `max(matches, key=recorded_at)`, the first of the latest
unfoldable pub latest : List GroupHomeContext → Option GroupHomeContext
latest [] = none
latest (c ∷ cs) = elim (latest cs) [
  | none ↦ some c
  | some d ↦ if ltb c.recorded_at d.recorded_at then some d else some c
]

-- What `mirror_home_reply_to_group_session` hands to `enqueue_group_home_reply`: the context of the
-- group, and the text; `none` outside is an exception. `on` says that mirroring is not switched off.
unfoldable pub home_reply :
    ℕ → Bool → String → String → String → File → Option (Option (GroupHomeContext × String))
unfolding load matches latest
home_reply now on text platform chat file =
    let reply = strip text in
    if not on || is_empty reply || starts_with reply "/aap" || is_empty platform || is_empty chat
    then some none
    else elim (load now file) [
      | none ↦ none
      | some cs ↦ elim (latest (matches platform chat cs)) [
        | none ↦ some none
        | some c ↦ some (some (c, reply))
      ]
    ]
