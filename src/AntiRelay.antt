-- ===== src/AntiRelay.antt =====
-- anti_relay.py: which peers have written into a session, read back from the rows of the session
-- database by the label that the adapter puts before a message.
pub mod Labels
use aap_hermes.Prelude.{
  ℕ, String, Bool, true, false, Option, none, some, List, [], ◌∷◌, ◌&&◌, if◌then◌else◌, ◌==◌,
}
use aap_hermes.Prelude.Text.{starts_with, drop_text, before, from, strip, is_space}
use aap_hermes.Prelude.Dict.{contains}
use aap_hermes.Gateway.{SessionSource, Row}
use Prim.Native.String

-- An entry of the session store.
pub record StoreEntry : Type 0 where
  pub session_id : String
  pub origin : Option SessionSource

-- What the module reads of the gateway's runner. `get_messages` is `none` where it raises, and
-- `session_db` and `entries` are `none` where the attribute is missing or `None`.
pub record Runner : Type 0 where
  pub session_db : Option (String → Option (List Row))
  pub entries : Option (List StoreEntry)

-- the character `]`
abbrev pub bracket : ℕ
bracket = 93

-- `\s+[^\]]+` on the text before the first `]`: a blank, and at least one character after it.
abbrev pub blank_and_more : String → Bool
blank_and_more String.[] = false
blank_and_more (String.◌∷◌ c String.[]) = false
blank_and_more (String.◌∷◌ c (String.◌∷◌ d s)) = is_space c

-- `re.match` of `^\[Agent\s+([^\]]+)\]:`, and its group without the blanks around it.
unfoldable pub agent_prefix : String → Option String
agent_prefix content =
    let rest = drop_text 6 content in
    if starts_with content "[Agent"
      && blank_and_more (before bracket rest)
      && starts_with (from bracket rest) "]:"
    then some (strip (before bracket rest))
    else none

is_user : Option String → Bool
is_user none = false
is_user (some role) = role == "user"

-- the sender that a row names, if it is a user's
unfoldable pub row_sender : Row → Option String
unfolding is_user agent_prefix
row_sender row =
    if is_user row.role then elim row.content [ none ↦ none | some s ↦ agent_prefix s ] else none

unfoldable pub senders : List Row → List String
senders [] = []
senders (row ∷ rows) = elim (row_sender row) [ none ↦ senders rows | some s ↦ s ∷ senders rows ]

rows_of : Option (String → Option (List Row)) → String → List Row
rows_of none session_id = []
rows_of (some get_messages) session_id = elim (get_messages session_id) [
  | none ↦ []
  | some rows ↦ rows
]

unfoldable pub peers_who_have_messaged_session : Option Runner → String → List String
unfolding senders rows_of
peers_who_have_messaged_session none session_id = []
peers_who_have_messaged_session (some runner) session_id =
    senders (rows_of runner.session_db session_id)

unfoldable pub is_peer_allowed_in_session : Option Runner → String → String → Bool
is_peer_allowed_in_session runner session_id peer =
    contains (peers_who_have_messaged_session runner session_id) peer

has_chat : String → Option SessionSource → Bool
has_chat chat none = false
has_chat chat (some origin) = elim origin.chat_id [ none ↦ false | some c ↦ c == chat ]

first_with_chat : String → List StoreEntry → Option String
first_with_chat chat [] = none
first_with_chat chat (e ∷ rest) =
    if has_chat chat e.origin then some e.session_id else first_with_chat chat rest

unfoldable pub resolve_session_id_for_chat : Option Runner → String → Option String
unfolding has_chat first_with_chat
resolve_session_id_for_chat none chat = none
resolve_session_id_for_chat (some runner) chat = elim runner.entries [
  | none ↦ none
  | some entries ↦ first_with_chat chat entries
]
