-- ===== src/Adapter/Dispatch/Turn.antt =====
-- adapter.py, `_dispatch`: what a turn leaves of its context, and what is sent at its end.
use aap_hermes.Prelude.{
  String, ◌≡◌, Bool, true, not, ◌&&◌, Option, [], ◌∷◌, ◌++◌, arith, is_some, if◌then◌else◌, inl,
  inr, Option-cases,
}
use mathlib.Core.List.{append-nil}
use aap_hermes.Gateway.{Sessions}
use aap_hermes.TurnContext
use aap_hermes.TurnContext.{Context}
use aap_hermes.Adapter.Noise.{is_no_reply, is_gateway_status_noise}
use aap_hermes.Adapter.Stores.{ConversationStore, RelationshipStore}
use aap_hermes.Adapter.Chat.{ChatMessage, MessageEvent, enter, leave}
use aap_hermes.Adapter.Dispatch.{World, Handler, Deliver, Sent, auto_reply, reply_of, run_turn}

-- The resets undo the sets, whatever the context has become.
abbrev pub Restores : Bool → Context → Context → Type 0
Restores group before after =
    (after.originating_peer ≡ before.originating_peer)
    × (after.session_source ≡ before.session_source)
    × (after.sent_this_turn ≡ before.sent_this_turn)
    × (group ≡ true → after.originating_group ≡ before.originating_group)

leave-enter :
    (m : ChatMessage) (ev : MessageEvent) (before after : Context)
    → Restores (is_some m.conversation_id) before (leave (enter m ev before).0 after)
unfolding enter leave TurnContext.set_originating_peer TurnContext.set_originating_group
    TurnContext.set_current_session_source TurnContext.init_sent_this_turn
    TurnContext.reset_originating_peer TurnContext.reset_originating_group
    TurnContext.reset_current_session_source TurnContext.reset_sent_this_turn
leave-enter m ev before after = elim (Option-cases m.conversation_id) [
  | inl direct ↦
      (ground (arith, direct), ground (arith, direct), ground (arith, direct), λ h. cc (direct, h))
  | inr (g, group) ↦ (
    ground (arith, group),
    ground (arith, group),
    ground (arith, group),
    λ h. ground (arith, group),
  )
]

module _ (C : ConversationStore) (R : RelationshipStore) (S : Sessions) (handler : Handler C R S)
    (deliver : Deliver C R S) (m : ChatMessage) (ev : MessageEvent) (w : World C R S) where
  -- What the handler returns and leaves.
  abbrev pub handled : Option String × World C R S
  handled = handler ev (record w { context = (enter m ev w.context).1 })

  -- The reply that the turn's text would be.
  abbrev pub reply : Sent
  reply = record {
    to = m.iss;
    content = reply_of C R S handled.0;
    thread_id = TurnContext.reply_thread_id_for m.iss handled.1.context;
  }

  -- The reply is wanted, allowed and accepted by the relay.
  abbrev pub is_sent : Bool
  is_sent =
      not (is_some m.conversation_id)
      && not (is_no_reply reply.content)
      && not (TurnContext.already_sent_to m.iss handled.1.context)
      && not (is_gateway_status_noise reply.content)
      && is_some (R.any_relationship_with m.iss handled.1.relationships)
      && is_some (deliver reply)

  -- Beyond what its handler sent, a turn sends its text to the peer that opened it, once, exactly
  -- if the message was 1:1, the text is no refusal to reply and no status notice, the context does
  -- not count that peer as written to, the peer has a relationship with us, and the relay accepts.
  pub sent-run_turn :
      (run_turn C R S handler deliver m ev w).sent
      ≡ handled.1.sent ++ (if is_sent then reply ∷ [] else [])
  unfolding run_turn auto_reply
  sent-run_turn = ground (arith, append-nil handled.1.sent)

  -- Whatever the handler and its tools do to the context, after the turn it names the peer, the
  -- source and the sent set that it named before, and after a group's turn the group too.
  context-run_turn :
      Restores (is_some m.conversation_id) w.context (run_turn C R S handler deliver m ev w).context
  unfolding run_turn
  context-run_turn =
      leave-enter m ev w.context (auto_reply C R S deliver m reply.content handled.1).context
