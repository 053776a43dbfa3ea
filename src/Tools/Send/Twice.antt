-- ===== src/Tools/Send/Twice.antt =====
-- tools.py and adapter.py: the chat tool and the reply at the end of the same turn.
use aap_hermes.Prelude.{
  String, ◌≡◌, refl, ap, ◌∙◌, Bool, false, not, ◌&&◌, Option, List, [], ◌∷◌, ◌++◌, arith, is_some,
  if◌then◌else◌,
}
use aap_hermes.Prelude.Dict.{contains}
use aap_hermes.Gateway.{Sessions}
use aap_hermes.TurnContext
use aap_hermes.TurnContext.{Context}
use aap_hermes.AntiRelay.{Runner}
use aap_hermes.Adapter.Noise.{is_no_reply, is_gateway_status_noise}
use aap_hermes.Adapter.Stores.{ConversationStore, RelationshipStore}
use aap_hermes.Adapter.Chat.{ChatMessage, MessageEvent, enter}
use aap_hermes.Adapter.Dispatch.{World, Deliver, Handler, Sent, run_turn}
use aap_hermes.Adapter.Dispatch.Turn.{sent-run_turn, reply}
use aap_hermes.Tools.Address.{Addresses}
use aap_hermes.Tools.Send.{Cache, use_tools}
use aap_hermes.Tools.Send.Confined.{
  context-use_tools, to_others, to_others-use_tools, to_others-append_if,
}

module _ (C : ConversationStore) (R : RelationshipStore) (S : Sessions) (a : Addresses)
    (deliver : Deliver C R S) (cache : Cache) (runner : Option Runner)
    (calls : List (String × String)) (answer : Option String) (m : ChatMessage) (ev : MessageEvent)
    (w : World C R S) where
  -- A turn of the model that calls the chat tool and then ends with a text.
  abbrev pub model : Handler C R S
  model event u = (answer, use_tools C R S a deliver cache runner calls u)

  abbrev pub opened : World C R S
  opened = record w { context = (enter m ev w.context).1 }

  -- The state when the model's text is there.
  abbrev pub worked : World C R S
  worked = use_tools C R S a deliver cache runner calls opened

  abbrev pub last : Sent
  last = reply C R S model deliver m ev w

  -- What `is_sent` asks but for an earlier envelope.
  abbrev pub is_sent_too : Bool
  is_sent_too =
      not (is_some m.conversation_id)
      && not (is_no_reply last.content)
      && not (is_gateway_status_noise last.content)
      && is_some (R.any_relationship_with m.iss worked.relationships)
      && is_some (deliver last)

  not_recorded : TurnContext.already_sent_to m.iss worked.context ≡ false
  unfolding enter TurnContext.already_sent_to TurnContext.init_sent_this_turn contains
  not_recorded = ground (arith, context-use_tools C R S a deliver cache runner calls opened)

  -- After calls of the chat tool, the text of a 1:1 turn is sent to its peer under the same
  -- conditions but one: whether the tool has already written to that peer makes no difference,
  -- since the tool does not record its envelopes in the turn's context.
  pub sent-run_turn_tools :
      (run_turn C R S model deliver m ev w).sent
      ≡ worked.sent ++ (if is_sent_too then last ∷ [] else [])
  sent-run_turn_tools = sent-run_turn C R S model deliver m ev w ∙ ground (arith, not_recorded)

  -- A turn that calls the chat tool, for whatever recipients, and then ends with a text adds no
  -- envelope to anybody but the peer that opened it.
  pub to_others-run_turn :
      to_others m.iss (run_turn C R S model deliver m ev w).sent ≡ to_others m.iss w.sent
  unfolding enter TurnContext.set_originating_peer TurnContext.set_originating_group
      TurnContext.set_current_session_source TurnContext.init_sent_this_turn
  to_others-run_turn =
      ap (to_others m.iss) sent-run_turn_tools
      ∙ to_others-append_if m.iss worked.sent last is_sent_too refl
      ∙ to_others-use_tools C R S a deliver cache runner m.iss calls opened (ground arith)
