-- ===== src/Examples/Turns.antt =====
-- Messages that are dispatched, and turns that call the chat tool.
use aap_hermes.Prelude.{
  String, ◌≡◌, refl, true, false, Option, none, some, [], ◌∷◌, ◌++◌, ◌==◌, if◌then◌else◌,
}
use aap_hermes.Prelude.Text.{strip, lstrip, rstrip, is_space}
use aap_hermes.Prelude.Text.Laws.{lacks}
use aap_hermes.Prelude.Dict.{contains}
use aap_hermes.Reasoning.{init}
use aap_hermes.AntiRelay.{bracket}
use aap_hermes.Adapter.Chat.{trust_preamble}
use aap_hermes.Adapter.Dispatch.{dispatch_chat, run_turn}
use aap_hermes.Adapter.Dispatch.Drops.{passes, dispatch_chat_dropped}
use aap_hermes.Adapter.Dispatch.Turn.{reply, is_sent, sent-run_turn}
use aap_hermes.Adapter.Dispatch.Ingested.{seen, seen-dispatch_chat}
use aap_hermes.Tools.Send.Confined.{to_others}
use aap_hermes.Tools.Send.Twice.{
  model, worked, last, is_sent_too, sent-run_turn_tools, to_others-run_turn,
}
use aap_hermes.Examples.Stores.{conversation_list, peer_list, session_map, session_map-IsSessions}
use aap_hermes.Examples.World.{
  james, eve, me, message_from, repr, quiet, decoupled, says_hi, relay, addresses, no_catalogs,
  tool_calls, hello,
}

to_others-run_turn_example :
    to_others james
      (run_turn conversation_list peer_list session_map
        (model conversation_list peer_list session_map addresses relay no_catalogs none tool_calls
          (some "done")
          (message_from james)
          hello
          quiet)
        relay
        (message_from james)
        hello
        quiet).sent
    ≡ to_others james quiet.sent
to_others-run_turn_example =
    to_others-run_turn conversation_list peer_list session_map addresses relay no_catalogs none
      tool_calls (some "done") (message_from james) hello quiet

sent-run_turn_tools_example :
    (run_turn conversation_list peer_list session_map
      (model conversation_list peer_list session_map addresses relay no_catalogs none tool_calls
        (some "done")
        (message_from james)
        hello
        quiet)
      relay
      (message_from james)
      hello
      quiet).sent
    ≡ (worked conversation_list peer_list session_map addresses relay no_catalogs none tool_calls
        (some "done")
        (message_from james)
        hello
        quiet).sent
      ++ (if is_sent_too conversation_list peer_list session_map addresses relay no_catalogs none
            tool_calls
            (some "done")
            (message_from james)
            hello
            quiet
          then last conversation_list peer_list session_map addresses relay no_catalogs none
              tool_calls
              (some "done")
              (message_from james)
              hello
              quiet
            ∷ []
          else [])
sent-run_turn_tools_example =
    sent-run_turn_tools conversation_list peer_list session_map addresses relay no_catalogs none
      tool_calls (some "done") (message_from james) hello quiet

sent-run_turn_example :
    (run_turn conversation_list peer_list session_map says_hi relay
      (message_from james)
      hello
      quiet).sent
    ≡ quiet.sent
      ++ (if is_sent conversation_list peer_list session_map says_hi relay
            (message_from james)
            hello
            quiet
          then reply conversation_list peer_list session_map says_hi relay
              (message_from james)
              hello
              quiet
            ∷ []
          else [])
sent-run_turn_example =
    sent-run_turn conversation_list peer_list session_map says_hi relay (message_from james) hello
      quiet

eve_may_not :
    passes conversation_list peer_list session_map repr me says_hi relay true false
      (message_from eve)
      quiet
    ≡ false
unfolding contains ◌==◌
eve_may_not = refl

dispatch_chat_dropped_example :
    dispatch_chat conversation_list peer_list session_map repr me says_hi relay true false
      (message_from eve)
      quiet
    ≡ quiet
dispatch_chat_dropped_example =
    dispatch_chat_dropped conversation_list peer_list session_map repr me says_hi relay true false
      (message_from eve) quiet eve_may_not

seen-dispatch_chat_example :
    seen session_map session_map-IsSessions []
      (dispatch_chat conversation_list peer_list session_map repr me says_hi relay true false
        (message_from james)
        decoupled).db
      james
    ≡ seen session_map session_map-IsSessions [] decoupled.db james
seen-dispatch_chat_example =
    seen-dispatch_chat conversation_list peer_list session_map session_map-IsSessions repr me
      says_hi relay true false [] (message_from james) decoupled init (λ id. []) james [] refl refl
      refl

james_trimmed : strip james ≡ james
unfolding strip lstrip rstrip is_space
james_trimmed = refl

james_plain : lacks bracket james ≡ true
unfolding lacks
james_plain = refl

abbrev admitted : Option String
admitted = trust_preamble conversation_list repr me james none [] none true

abbrev preamble : String
preamble = elim admitted [ none ↦ "" | some p ↦ p ]

james_admitted : admitted ≡ some preamble
unfolding trust_preamble
james_admitted = refl
