-- ===== src/TurnContext/Laws.antt =====
-- turn_context.py: what a turn sees of its context.
use aap_hermes.Prelude.{
  String, ◌≡◌, true, false, some, List, ◌∷◌, arith, ◌==◌, ==_iff, ==_refl, ◌||◌, inl, inr,
  Option-cases,
}
use aap_hermes.Prelude.Dict.{contains}
use aap_hermes.Prelude.Text.{starts_with, is_empty}
use aap_hermes.Gateway.{SessionSource}
use aap_hermes.TurnContext.{Context, record_outbound_send, already_sent_to, reply_thread_id_for}

contains-cons_self : (x : String) (xs : List String) → contains (x ∷ xs) x ≡ true
unfolding contains
contains-cons_self x xs = ground (arith, ==_refl x)

-- Within a turn, once an address that is not empty is recorded, `already_sent_to` answers exactly
-- for the peers that it answered for before and for that one.
pub already_sent_to-record_outbound_send :
    (c : Context) (sent : List String) (p q : String)
    → c.sent_this_turn ≡ some sent
    → is_empty p ≡ false
    → already_sent_to q (record_outbound_send p c) ≡ (p == q || already_sent_to q c)
unfolding already_sent_to record_outbound_send contains
already_sent_to-record_outbound_send c sent p q h e = ground (arith, ==_iff p q)

-- The thread of a turn is echoed only to the peer whose chat the turn is in, and never in a group.
reply_thread_id_for-eq-some :
    (c : Context) (target thread : String)
    → reply_thread_id_for target c ≡ some thread
    → (source : SessionSource) × (c.session_source ≡ some source)
      × (source.chat_id ≡ some target)
      × (source.thread_id ≡ some thread)
      × (starts_with target "aap-group:" ≡ false)
unfolding reply_thread_id_for
reply_thread_id_for-eq-some c target thread h = elim (Option-cases c.session_source) [
  | inl outside ↦ ground arith
  | inr (source, inside) ↦ elim (Option-cases source.chat_id) [
    | inl no_chat ↦ ground arith
    | inr (chat, in_chat) ↦ (
      source,
      inside,
      ground (arith, ==_iff chat target),
      ground (arith, ==_iff chat target),
      ground (arith, ==_iff chat target),
    )
  ]
]
