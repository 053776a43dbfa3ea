-- ===== src/Tools/Send/Confined.antt =====
-- tools.py, `aap_send_message_handler`: to whom the chat tool writes during a turn.
use aap_hermes.Prelude.{
  String, ◌≡◌, refl, ap, ◌∙◌, Bool, true, false, Option, some, List, [], ◌∷◌, ◌++◌, arith, is_some,
  inl, inr, Option-cases, ◌==◌, ==_iff, if◌then◌else◌,
}
use mathlib.Core.List.{append-nil}
use aap_hermes.Gateway.{Sessions}
use aap_hermes.AntiRelay.{Runner}
use aap_hermes.Adapter.Stores.{ConversationStore, RelationshipStore}
use aap_hermes.Adapter.Dispatch.{World, Deliver, Sent}
use aap_hermes.Tools.Address.{Addresses, parse_user_address}
use aap_hermes.Tools.Send.{
  Cache, aap_send_message, send_parsed, send_checked, ship, use_tools, relay_refusal, thread_for,
}

-- The envelopes that are not for a peer.
unfoldable pub to_others : String → List Sent → List Sent
to_others p [] = []
to_others p (e ∷ es) = let rest = to_others p es in if e.to == p then rest else e ∷ rest

to_others-append :
    (p : String) (es : List Sent) (e : Sent)
    → e.to ≡ p
    → to_others p (es ++ e ∷ []) ≡ to_others p es
unfolding to_others
to_others-append p [] e h = ground (arith, ==_iff e.to p)
to_others-append p (x ∷ es) e h = ground (arith, to_others-append p es e h)

pub to_others-append_if :
    (p : String) (es : List Sent) (e : Sent) (b : Bool)
    → e.to ≡ p
    → to_others p (es ++ (if b then e ∷ [] else [])) ≡ to_others p es
to_others-append_if p es e true h = to_others-append p es e h
to_others-append_if p es e false h = ap (to_others p) (append-nil es)

module _ (C : ConversationStore) (R : RelationshipStore) (S : Sessions) (a : Addresses)
    (deliver : Deliver C R S) (cache : Cache) (runner : Option Runner) where
  pub context-aap_send_message :
      (value content : String) (w : World C R S)
      → (aap_send_message C R S a deliver cache runner value content w).1.context ≡ w.context
  unfolding aap_send_message send_parsed send_checked ship
  context-aap_send_message value content w = ground arith

  pub context-use_tools :
      (calls : List (String × String)) (w : World C R S)
      → (use_tools C R S a deliver cache runner calls w).context ≡ w.context
  unfolding use_tools
  context-use_tools [] w = refl
  context-use_tools ((value, content) ∷ calls) w =
      context-use_tools calls (aap_send_message C R S a deliver cache runner value content w).1
      ∙ context-aap_send_message value content w

  to_others-ship :
      (p : String) (related : Bool) (e : Sent) (w : World C R S)
      → e.to ≡ p
      → to_others p (ship C R S deliver related e w).1.sent ≡ to_others p w.sent
  unfolding ship
  to_others-ship p related e w h = ground (arith, to_others-append p w.sent e h)

  to_others-send_checked :
      (p to content : String) (w : World C R S)
      → to ≡ p
      → to_others p (send_checked C R S deliver cache to content w).1.sent ≡ to_others p w.sent
  unfolding send_checked
  to_others-send_checked p to content w h =
      elim (Option-cases (thread_for to w.context w.threads)) [
        | inl failed ↦ ground arith
        | inr (t, found) ↦ ground (
          arith,
          found,
          to_others-ship p (is_some (R.any_relationship_with to w.relationships))
              (record { to = to; content = content; thread_id = t }) w h,
        )
      ]

  to_others-aap_send_message :
      (p value content : String) (w : World C R S)
      → w.context.originating_peer ≡ some p
      → to_others p (aap_send_message C R S a deliver cache runner value content w).1.sent
        ≡ to_others p w.sent
  unfolding aap_send_message send_parsed relay_refusal
  to_others-aap_send_message p value content w h =
      elim (Option-cases (parse_user_address a value)) [
        | inl failed ↦ ground arith
        | inr (to, parsed) ↦
            ground (arith, parsed, ==_iff p to, to_others-send_checked p to content w)
      ]

  -- While a peer's turn runs, no sequence of calls of the chat tool sends an envelope to anybody
  -- but that peer.
  pub to_others-use_tools :
      (p : String) (calls : List (String × String)) (w : World C R S)
      → w.context.originating_peer ≡ some p
      → to_others p (use_tools C R S a deliver cache runner calls w).sent ≡ to_others p w.sent
  unfolding use_tools
  to_others-use_tools p [] w h = refl
  to_others-use_tools p ((value, content) ∷ calls) w h =
      to_others-use_tools p calls (aap_send_message C R S a deliver cache runner value content w).1
        (ground (arith, context-aap_send_message value content w))
      ∙ to_others-aap_send_message p value content w h
