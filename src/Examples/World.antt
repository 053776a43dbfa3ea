-- ===== src/Examples/World.antt =====
-- A peer, a stranger, and the states and handlers of the examples.
use aap_hermes.Prelude.{String, none, some, List, [], ◌∷◌}
use aap_hermes.Prelude.Text.{◌<>◌}
use aap_hermes.TurnContext.{outside}
use aap_hermes.PeerThreads.{missing}
use aap_hermes.Reasoning.{init}
use aap_hermes.Adapter.Chat.{ChatMessage, MessageEvent, event_of}
use aap_hermes.Adapter.Dispatch.{World, Handler, Deliver}
use aap_hermes.Tools.Address.{Addresses}
use aap_hermes.Tools.Send.{Cache}
use aap_hermes.Examples.Stores.{conversation_list, peer_list, session_map}

abbrev pub james : String
james = "james^hermes.example"

abbrev pub eve : String
eve = "eve^evil.example"

abbrev pub me : String
me = "me^hermes.example"

abbrev pub message_from : String → ChatMessage
message_from sender = record {
  iss = sender;
  conversation_id = none;
  body = "hello";
  thread_id = none;
  row_id = "1";
  iat = "2026-01-01T00:00:00Z";
}

abbrev pub repr : String → String
repr s = "'" <> s <> "'"

abbrev pub Here : Type 0
Here = World conversation_list peer_list session_map

abbrev pub quiet : Here
quiet = record {
  conversations = [];
  relationships = james ∷ [];
  threads = missing;
  db = some (λ id. []);
  scheduler = none;
  context = outside;
  notices = [];
  group_contexts = [];
  sent = [];
  contacted = [];
  transcripts = [];
}

abbrev pub decoupled : Here
decoupled = record quiet { scheduler = some init }

-- a turn of James's
abbrev pub in_turn : Here
in_turn = record quiet { context = record outside { originating_peer = some james } }

abbrev pub says_hi : Handler conversation_list peer_list session_map
says_hi ev w = (some "hi", w)

abbrev pub relay : Deliver conversation_list peer_list session_map
relay e = some "envelope"

abbrev pub addresses : Addresses
addresses = record { parse_user_input = none; parse = λ s. some s }

abbrev pub no_catalogs : Cache
no_catalogs = none

abbrev pub tool_calls : List (String × String)
tool_calls = (james, "first") ∷ (eve, "secret") ∷ []

abbrev pub hello : MessageEvent
hello = event_of "Note. " (message_from james)
