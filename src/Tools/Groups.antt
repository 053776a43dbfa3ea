-- ===== src/Tools/Groups.antt =====
-- tools.py: `aap_group_start_handler`, `aap_group_send_handler` and `aap_group_complete_handler`.
pub mod Start
pub mod Finish
use aap_hermes.Prelude.{
  ℕ, ◌+◌, String, Bool, true, false, not, Option, none, some, List, [], ◌∷◌, ◌++◌, ◌&&◌, ◌==◌, ltb,
  is_some, if◌then◌else◌, map,
}
use aap_hermes.Prelude.Text.{◌<>◌, is_empty, strip, rstrip, take_text, text_length}
use aap_hermes.TurnContext.{Context}
use aap_hermes.Adapter.Stores.{Conversation, ConversationStore, RelationshipStore}
use aap_hermes.Adapter.GroupNote.{length, is_nil}
use aap_hermes.Adapter.Groups.{GroupInvitation, GroupComplete, mark_completed, or_else}
use aap_hermes.Tools.Address.{Addresses, parse_user_address}

-- The addresses in their canonical form, or the first that is none.
pub data Parsed : Type 0 where
  all : List String → Parsed
  invalid : String → Parsed

cons_parsed : String → Parsed → Parsed
cons_parsed m (all ms) = all (m ∷ ms)
cons_parsed m (invalid x) = invalid x

unfoldable pub parse_all : Addresses → List String → Parsed
unfolding cons_parsed
parse_all a [] = all []
parse_all a (m ∷ ms) =
    let rest = parse_all a ms in
    elim (parse_user_address a m) [ none ↦ invalid m | some to ↦ cons_parsed to rest ]

-- `[m for m in ms if m != self]`
unfoldable pub others : String → List String → List String
others self [] = []
others self (m ∷ ms) = let rest = others self ms in if m == self then rest else m ∷ rest

-- The group's name: at most 30 characters of the name, or of the purpose.
unfoldable pub display_name_of : String → String → String
display_name_of name purpose =
    let display = or_else (strip name) purpose in
    if ltb 30 (text_length display) then rstrip (take_text 27 display) <> "..." else display

-- The invitation to a conversation.
abbrev pub invitation_to : Conversation → GroupInvitation
invitation_to c = record {
  conversation_id = c.conversation_id;
  convener = c.convener;
  members = c.members;
  purpose = c.purpose;
  name = c.name;
  goal = c.goal;
}

-- What `aap_group_start` returns: an error, or the conversation, who could be reached, and who has
-- no relationship with us.
pub data Started : Type 0 where
  no_members : Started
  invalid_member : String → Started
  too_many : ℕ → Started
  too_few : Started
  started : Conversation → List (String × Bool) → List String → Started

-- Each recipient with what the relay said.
unfoldable pub deliver_all : (String → Bool) → List String → List (String × Bool)
deliver_all reaches [] = []
deliver_all reaches (m ∷ ms) = (m, reaches m) ∷ deliver_all reaches ms

module _ (C : ConversationStore) (R : RelationshipStore) (self : String) where
  unfoldable pub unrelated : R.State → List String → List String
  unrelated r [] = []
  unrelated r (m ∷ ms) =
      let rest = unrelated r ms in if is_some (R.any_relationship_with m r) then rest else m ∷ rest

  -- A conversation that we convene.
  abbrev pub convened : String → String → String → String → String → List String → Conversation
  convened id now purpose name goal members = record {
    conversation_id = id;
    purpose = purpose;
    members = members;
    convener = self;
    accepted_at = now;
    last_message_at = none;
    name = display_name_of name purpose;
    goal = goal;
    completed_at = none;
  }

  -- The result, the invitations that are handed to the relay, and the store.
  abbrev pub StartOutcome : Type 0
  StartOutcome = Started × List (String × GroupInvitation) × C.State

  unfoldable pub start_with :
      (String → Bool) → R.State → Conversation → List String → C.State → StartOutcome
  unfolding deliver_all unrelated
  start_with reaches r conv peers s = (
    started conv (deliver_all reaches peers) (unrelated r peers),
    map (λ m. (m, invitation_to conv)) peers,
    C.record_conversation conv s,
  )

  unfoldable pub start_parsed :
      (String → Bool)
      → R.State
      → String
      → String
      → String
      → String
      → String
      → List String
      → C.State
      → StartOutcome
  unfolding start_with
  start_parsed reaches r id now purpose name goal members s =
      let peers = others self members in
      if ltb 10 (length (self ∷ peers))
      then (too_many (length peers), [], s)
      else if ltb (length (self ∷ peers)) 2
      then (too_few, [], s)
      else start_with reaches r (convened id now purpose name goal (self ∷ peers)) peers s

  -- `aap_group_start_handler`; `id` is the one that it draws, `reaches` says which recipients the
  -- relay takes an invitation for.
  unfoldable pub aap_group_start :
      Addresses
      → (String → Bool)
      → R.State
      → String
      → String
      → List String
      → String
      → String
      → String
      → C.State
      → StartOutcome
  unfolding start_parsed parse_all
  aap_group_start a reaches r id now members purpose name goal s =
      if is_nil members then (no_members, [], s) else elim (parse_all a members) [
        | invalid m ↦ (invalid_member m, [], s)
        | all ms ↦ start_parsed reaches r id now purpose name goal ms s
      ]

-- What `aap_group_send` returns; the results of a broadcast are the recipients with their success.
pub data Broadcast : Type 0 where
  other_group : String → String → Broadcast
  broadcast_error : Broadcast
  broadcast : ℕ → ℕ → List String → Broadcast

unfoldable pub reached : List (String × Bool) → ℕ
reached [] = 0
reached ((m, ok) ∷ rest) = let n = reached rest in if ok then n + 1 else n

unfoldable pub unreached : List (String × Bool) → List String
unreached [] = []
unreached ((m, ok) ∷ rest) = let ms = unreached rest in if ok then ms else m ∷ ms

abbrev pub total : List (String × Bool) → ℕ
total [] = 0
total (x ∷ rest) = total rest + 1

abbrev is_other_group : Context → String → Option String
is_other_group c id = elim c.originating_group [
  | none ↦ none
  | some g ↦ if g == id then none else some g
]

-- `aap_group_send_handler`, with the texts that go to the group's own session.
-- `broadcast_to_conversation` of the `aap` package is an argument, `none` where it raises.
unfoldable pub aap_group_send :
    {A : Type 0}
    → (String → String → A → Option (List (String × Bool) × A))
    → Context
    → String
    → String
    → A
    → Broadcast × List (String × String) × A
unfolding reached unreached
aap_group_send send_to c id message s = elim (is_other_group c id) [
  | some g ↦ (other_group g id, [], s)
  | none ↦ elim (send_to id message s) [
    | none ↦ (broadcast_error, [], s)
    | some (results, s') ↦
        (broadcast (reached results) (total results) (unreached results), (id, message) ∷ [], s')
  ]
]

-- What `aap_group_complete` returns.
pub data Finished : Type 0 where
  unknown_conversation : Finished
  not_convener : String → Finished
  finished : String → List (String × Bool) → Finished

module _ (C : ConversationStore) (self : String) where
  -- The result, the notices that are handed to the relay, and the store.
  abbrev pub FinishOutcome : Type 0
  FinishOutcome = Finished × List (String × GroupComplete) × C.State

  unfoldable pub complete_conversation :
      (String → Bool) → String → GroupComplete → Conversation → C.State → FinishOutcome
  unfolding deliver_all
  complete_conversation reaches now c conv s =
      if conv.convener == self
      then (
        finished now (deliver_all reaches (others self conv.members)),
        map (λ m. (m, c)) (others self conv.members),
        C.set_conversations (mark_completed c.conversation_id now (C.conversations s)) s,
      )
      else (not_convener conv.convener, [], s)

  -- `aap_group_complete_handler`
  unfoldable pub aap_group_complete :
      (String → Bool) → String → GroupComplete → C.State → FinishOutcome
  unfolding complete_conversation
  aap_group_complete reaches now c s = elim (C.get c.conversation_id s) [
    | none ↦ (unknown_conversation, [], s)
    | some conv ↦ complete_conversation reaches now c conv s
  ]
