-- ===== src/TurnContext.antt =====
-- turn_context.py: the context variables of one task, as the fields of a record. Setting one
-- returns the token that undoes it, the value before.
pub mod Laws
use aap_hermes.Prelude.{
  String, Bool, true, false, Option, none, some, List, [], ◌∷◌, if◌then◌else◌, ◌==◌,
}
use aap_hermes.Prelude.Text.{starts_with, is_empty}
use aap_hermes.Prelude.Dict.{contains}
use aap_hermes.Gateway.{SessionSource}

pub record Context : Type 0 where
  pub originating_peer : Option String
  pub sent_this_turn : Option (List String)
  pub originating_group : Option String
  pub session_source : Option SessionSource

abbrev pub outside : Context
outside = record {
  originating_peer = none;
  sent_this_turn = none;
  originating_group = none;
  session_source = none;
}

unfoldable pub set_originating_peer : Option String → Context → Option String × Context
set_originating_peer peer c = (c.originating_peer, record c { originating_peer = peer })

unfoldable pub reset_originating_peer : Option String → Context → Context
reset_originating_peer token c = record c { originating_peer = token }

unfoldable pub init_sent_this_turn : Context → Option (List String) × Context
init_sent_this_turn c = (c.sent_this_turn, record c { sent_this_turn = some [] })

unfoldable pub reset_sent_this_turn : Option (List String) → Context → Context
reset_sent_this_turn token c = record c { sent_this_turn = token }

-- the set with one more element
add_peer : Option (List String) → String → Option (List String)
add_peer none peer = none
add_peer (some sent) peer =
    if is_empty peer
    then some sent
    else if contains sent peer
    then some sent
    else some (peer ∷ sent)

unfoldable pub record_outbound_send : String → Context → Context
unfolding add_peer
record_outbound_send peer c = record c { sent_this_turn = add_peer c.sent_this_turn peer }

unfoldable pub already_sent_to : String → Context → Bool
already_sent_to peer c = elim c.sent_this_turn [ none ↦ false | some sent ↦ contains sent peer ]

unfoldable pub set_originating_group : Option String → Context → Option String × Context
set_originating_group group c = (c.originating_group, record c { originating_group = group })

unfoldable pub reset_originating_group : Option String → Context → Context
reset_originating_group token c = record c { originating_group = token }

unfoldable pub set_current_session_source :
    Option SessionSource → Context → Option SessionSource × Context
set_current_session_source source c = (c.session_source, record c { session_source = source })

unfoldable pub reset_current_session_source : Option SessionSource → Context → Context
reset_current_session_source token c = record c { session_source = token }

-- the reply's thread, by the chat of the turn's source
unfoldable pub thread_of : String → Option String → Option String → Option String
thread_of target none thread = none
thread_of target (some chat) thread =
    if chat == target then (if starts_with chat "aap-group:" then none else thread) else none

unfoldable pub reply_thread_id_for : String → Context → Option String
unfolding thread_of
reply_thread_id_for target c = elim c.session_source [
  | none ↦ none
  | some source ↦ thread_of target source.chat_id source.thread_id
]
