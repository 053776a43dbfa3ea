-- ===== src/Adapter/Services.antt =====
-- adapter.py: `_handle_service_response`, which routes a business's answer into the session that
-- made the request.
pub mod Routed
use aap_hermes.Prelude.{
  ◌>>=◌, ℕ, String, Bool, true, false, Option, none, some, List, [], ◌∷◌, ◌++◌, is_some,
  if◌then◌else◌,
}
use aap_hermes.Prelude.Text.{◌<>◌, is_empty}
use aap_hermes.Prelude.Text.Joined.{concat}
use aap_hermes.Gateway.{Platform, SessionSource, Sessions}
use aap_hermes.Origins.{Calendar, Disk, File, Logged, RequestOrigin, Value, as_text, pop_if}
use aap_hermes.Adapter.Stores.{ConversationStore, RelationshipStore, Notice, inbound_notice}
use aap_hermes.Adapter.PeerNotes.{reply_window_trust_note}
use aap_hermes.Adapter.Chat.{MessageEvent, enter_turn, leave}
use aap_hermes.Adapter.Dispatch.{World, conversation_of, group_label}

pub data Status : Type 0 where
  confirmed : Status
  denied : Status
  -- any other status, by its value
  in_progress : String → Status

abbrev pub status_text : Status → String
status_text confirmed = "confirmed"
status_text denied = "denied"
status_text (in_progress s) = s

-- `ServiceResponse`; `payload` is what `str` makes of the dict, `none` if it is empty, and
-- `denial_reason` is likewise printed.
pub record ServiceResponse : Type 0 where
  pub request_nonce : String
  pub service_id : String
  pub status : Status
  pub payload : Option String
  pub denial_reason : String

-- `PendingResponses`: whether a tool call waited for the nonce.
pub record PendingResponses : Type 1 where
  pub State : Type 0
  pub resolve : String → ServiceResponse → State → State × Bool

abbrev payload_line : Option String → String
payload_line none = ""
payload_line (some p) = "\n" <> p

unfoldable pub summary : String → ServiceResponse → String
unfolding concat
summary sender resp = elim resp.status [
  | confirmed ↦
      concat ("✅ service-response from " ∷ sender ∷ ": " ∷ resp.service_id ∷ " confirmed" ∷ [])
      <> payload_line resp.payload
  | denied ↦ concat (
      "🚫 service-response from " ∷ sender ∷ ": " ∷ resp.service_id ∷ " denied ("
      ∷ resp.denial_reason ∷ ")" ∷ [])
  | in_progress s ↦
      concat ("⏳ service-response from " ∷ sender ∷ ": " ∷ resp.service_id ∷ " status=" ∷ s ∷ [])
]

-- A field that is a text and not empty.
abbrev pub truthy : Value → Option String
truthy v = as_text v >>= λ s. if is_empty s then none else some s

unfoldable pub group_context_note : (String → String) → String → String → String
unfolding concat
group_context_note repr display conv_id = concat (
    "\nGROUP UPDATE REQUIRED: This service request was made on behalf of the group '"
    ∷ display
    ∷ "' (conversation_id: "
    ∷ repr conv_id
    ∷ "). After notifying the user, you MUST call aap_group_send(conversation_id="
    ∷ repr conv_id
    ∷ ", text=...) to update all group members with the outcome. Do not skip this step.\n"
    ∷ [])

-- The source that the recorded origin names; a field that is no text counts as `None`. `platform_of`
-- is the constructor of the gateway's `Platform`, `none` where it raises.
unfoldable pub origin_source : (String → Option Platform) → RequestOrigin → Option SessionSource
origin_source platform_of o = do
  named ← as_text o.platform
  platform ← platform_of named
  some (record {
    platform = some platform;
    chat_id = as_text o.chat_id;
    chat_name = none;
    chat_type = as_text o.chat_type;
    user_id = as_text o.user_id;
    user_name = as_text o.user_name;
    thread_id = as_text o.thread_id;
  })

module _ (C : ConversationStore) (R : RelationshipStore) (S : Sessions) (P : PendingResponses)
    (cal : Calendar) (ttl : ℕ) (repr : String → String)
    (platform_of : String → Option Platform) where
  pub record State : Type 0 where
    pub world : World C R S
    pub origins : File
    pub pending : P.State
    pub journal : List Logged

  abbrev pub Handler : Type 0
  Handler = MessageEvent → State → Option String × State

  abbrev pub notify : String → String → State → State
  notify sender message s = record s {
    world = record s.world { notices = s.world.notices ++ inbound_notice sender message ∷ [] };
  }

  note_for : Option String → C.State → String
  note_for none conversations = ""
  note_for (some c) conversations =
      group_context_note repr (group_label C R S c (C.get c conversations)) c

  -- The event that answers a request: the labelled summary, in the session of the origin.
  unfoldable pub routed_event :
      String → String → ServiceResponse → RequestOrigin → SessionSource → C.State → MessageEvent
  unfolding note_for
  routed_event iat sender resp origin source conversations = record {
    text =
        reply_window_trust_note sender
        <> note_for (truthy origin.group_conversation_id) conversations
        <> summary sender resp;
    source = source;
    message_id = some resp.request_nonce;
    timestamp = iat;
  }

  -- The turn in the origin's session: its final text goes nowhere.
  unfoldable pub routed_turn : Handler → String → Option String → MessageEvent → State → State
  unfolding leave
  routed_turn handler sender group ev s =
      let (tokens, entered) = enter_turn sender group ev.source s.world.context in
      let (response, after) =
        handler ev (record s { world = record s.world { context = entered } }) in
      record after { world = record after.world { context = leave tokens after.world.context } }

  -- From the origin that `pop_if` has returned on.
  unfoldable pub route :
      Option Handler → String → String → ServiceResponse → RequestOrigin → State → State
  unfolding routed_turn
  route none iat sender resp origin s = notify sender (summary sender resp) s
  route (some handler) iat sender resp origin s =
      let s' = notify sender (summary sender resp) s in
      elim (origin_source platform_of origin) [
        | none ↦ s'
        | some source ↦
            routed_turn handler sender (truthy origin.group_conversation_id)
              (routed_event iat sender resp origin source s.world.conversations) s'
      ]

  -- No tool call waits for the answer.
  unfoldable pub unclaimed :
      Option Handler → ℕ → Disk → String → String → ServiceResponse → State → State
  unfolding route
  unclaimed handler now disk iat sender resp s =
      elim (pop_if cal ttl now disk resp.request_nonce sender s.origins) [
        | none ↦ s
        | some (origins', origin, logs) ↦
            let s' = record s { origins = origins'; journal = s.journal ++ logs } in
            elim origin [
              | none ↦
                  notify sender (summary sender resp <> "\n(no routing record; not dispatched)") s'
              | some o ↦ route handler iat sender resp o s'
            ]
      ]

  -- `_handle_service_response`; the payload is `none` if `ServiceResponse.from_dict` raises.
  unfoldable pub handle_service_response :
      Option Handler → ℕ → Disk → String → String → Option ServiceResponse → State → State
  unfolding unclaimed
  handle_service_response handler now disk iat sender none s = s
  handle_service_response handler now disk iat sender (some resp) s =
      let (pending', resolved) = P.resolve resp.request_nonce resp s.pending in
      let s' = record s { pending = pending' } in
      let rest = unclaimed handler now disk iat sender resp s' in if resolved then s' else rest
