-- ===== src/Tools/Send.antt =====
-- tools.py: `aap_send_message_handler`, the chat tool of the language model, and the checks of its
-- recipient.
pub mod Confined
pub mod Twice
use aap_hermes.Prelude.{
  String, Bool, true, false, not, Option, none, some, List, [], ◌∷◌, ◌++◌, ◌&&◌, ◌==◌, is_some,
  if◌then◌else◌,
}
use aap_hermes.Prelude.Text.{is_empty}
use aap_hermes.Prelude.Dict.{contains}
use aap_hermes.Gateway.{SessionSource, Sessions}
use aap_hermes.TurnContext
use aap_hermes.TurnContext.{Context}
use aap_hermes.PeerThreads
use aap_hermes.AntiRelay.{Runner, peers_who_have_messaged_session, resolve_session_id_for_chat}
use aap_hermes.Adapter.Stores.{ConversationStore, Relationship, RelationshipStore}
use aap_hermes.Adapter.Dispatch.{World, Deliver, Sent}
use aap_hermes.Tools.Address.{Addresses, parse_user_address}

-- A business's catalog, as far as the tool reads it: whether it lists a service, and the canonical
-- address.
pub record Catalog : Type 0 where
  pub has_services : Bool
  pub canonical_agent_address : Option String

-- `catalog_cache.get`: `none` where it raises, then `None` or a catalog. The two times that one
-- call of the tool asks, it answers alike. A cache may be missing.
abbrev pub Cache : Type 0
Cache = Option (String → Option (Option Catalog))

abbrev pub catalog_of : Cache → String → Option Catalog
catalog_of none address = none
catalog_of (some get) address = elim (get address) [ none ↦ none | some catalog ↦ catalog ]

unfoldable pub peer_is_business : String → Cache → Bool
peer_is_business address cache = elim (catalog_of cache address) [
  | none ↦ false
  | some catalog ↦ catalog.has_services
]

other_address : String → Option String → Option String
other_address address none = none
other_address address (some canonical) =
    if is_empty canonical then none else if canonical == address then none else some canonical

unfoldable pub canonical_agent_mismatch : String → Cache → Option String
unfolding other_address
canonical_agent_mismatch address cache = elim (catalog_of cache address) [
  | none ↦ none
  | some catalog ↦ other_address address catalog.canonical_agent_address
]

-- Why the tool returns the status `error`.
pub data Refusal : Type 0 where
  invalid_address : Refusal
  other_peer : String → String → Refusal
  not_in_session : String → Refusal
  stranger : String → Refusal
  mismatch : String → String → Refusal
  send_failed : Refusal

-- What the tool returns; `raised` is an exception that it does not catch.
pub data Result : Type 0 where
  delivered : String → Result
  error : Refusal → Result
  raised : Result

-- `if allowed_peers and to not in allowed_peers`
not_among : String → List String → Option Refusal
not_among to [] = none
not_among to (p ∷ peers) = if contains (p ∷ peers) to then none else some (not_in_session to)

unfoldable pub session_refusal : Option Runner → Option String → String → Option Refusal
unfolding not_among
session_refusal runner none to = none
session_refusal runner (some chat) to =
    if is_empty chat then none else elim (resolve_session_id_for_chat runner chat) [
      | none ↦ none
      | some id ↦ not_among to (peers_who_have_messaged_session runner id)
    ]

-- The anti-relay checks.
unfoldable pub relay_refusal : Option Runner → Context → String → Option Refusal
unfolding session_refusal
relay_refusal runner c to = elim c.originating_peer [
  | some originator ↦ if originator == to then none else some (other_peer originator to)
  | none ↦ elim c.session_source [
    | none ↦ none
    | some source ↦ session_refusal runner source.chat_id to
  ]
]

-- A peer without a relationship must be a business, at its canonical address.
unfoldable pub stranger_refusal : Cache → Option Relationship → String → Option Refusal
stranger_refusal cache (some rel) to = none
stranger_refusal cache none to =
    if peer_is_business to cache
    then elim (canonical_agent_mismatch to cache) [
      | none ↦ none
      | some canonical ↦ some (mismatch to canonical)
    ]
    else some (stranger to)

-- `reply_thread_id_for(to) or last_inbound_thread(to)`; `none` is an exception.
unfoldable pub thread_for : String → Context → PeerThreads.File → Option (Option String)
thread_for to c file = elim (TurnContext.reply_thread_id_for to c) [
  | none ↦ PeerThreads.last_inbound_thread to file
  | some t ↦ if is_empty t then PeerThreads.last_inbound_thread to file else some (some t)
]

module _ (C : ConversationStore) (R : RelationshipStore) (S : Sessions) where
  -- The state after a send that the relay accepted.
  abbrev pub shipped : Bool → Sent → World C R S → World C R S
  shipped related e w = record w {
    sent = w.sent ++ e ∷ [];
    contacted = if related then w.contacted else w.contacted ++ e.to ∷ [];
    notices =
        w.notices
        ++ record {
          sender = none;
          recipient = some e.to;
          message = e.content;
          thread_id = none;
          group_label = none;
        }
          ∷ [];
    transcripts = w.transcripts ++ (e.to, e.content) ∷ [];
  }

  unfoldable pub ship : Deliver C R S → Bool → Sent → World C R S → Result × World C R S
  ship deliver related e w = elim (deliver e) [
    | none ↦ (error send_failed, w)
    | some id ↦ (delivered id, shipped related e w)
  ]

  -- From the lookup of the relationship on.
  unfoldable pub send_checked :
      Deliver C R S → Cache → String → String → World C R S → Result × World C R S
  unfolding ship
  send_checked deliver cache to content w =
      let rel = R.any_relationship_with to w.relationships in
      elim (stranger_refusal cache rel to) [
        | some why ↦ (error why, w)
        | none ↦ elim (thread_for to w.context w.threads) [
          | none ↦ (raised, w)
          | some thread_id ↦
              ship deliver (is_some rel)
                (record { to = to; content = content; thread_id = thread_id }) w
        ]
      ]

  unfoldable pub send_parsed :
      Deliver C R S → Cache → Option Runner → String → String → World C R S → Result × World C R S
  unfolding send_checked
  send_parsed deliver cache runner to content w = elim (relay_refusal runner w.context to) [
    | some why ↦ (error why, w)
    | none ↦ send_checked deliver cache to content w
  ]

  -- `aap_send_message_handler`
  unfoldable pub aap_send_message :
      Addresses
      → Deliver C R S
      → Cache
      → Option Runner
      → String
      → String
      → World C R S
      → Result × World C R S
  unfolding send_parsed
  aap_send_message a deliver cache runner value content w = elim (parse_user_address a value) [
    | none ↦ (error invalid_address, w)
    | some to ↦ send_parsed deliver cache runner to content w
  ]

  -- The calls that the model makes in one turn, in their order, each with its recipient and text.
  unfoldable pub use_tools :
      Addresses
      → Deliver C R S
      → Cache
      → Option Runner
      → List (String × String)
      → World C R S
      → World C R S
  unfolding aap_send_message
  use_tools a deliver cache runner [] w = w
  use_tools a deliver cache runner ((value, content) ∷ calls) w =
      use_tools a deliver cache runner calls
        (aap_send_message a deliver cache runner value content w).1
