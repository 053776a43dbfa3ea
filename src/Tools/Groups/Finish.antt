-- ===== src/Tools/Groups/Finish.antt =====
-- tools.py and adapter.py: the completion that `aap_group_complete` records, and the one that the
-- other members record.
use aap_hermes.Prelude.{
  String, ◌≡◌, ◌≢◌, refl, Bool, Option, none, some, List, [], arith, ◌==◌, ==_iff, if◌then◌else◌,
  map, if_elim,
}
use aap_hermes.Adapter.Stores.{Conversation, ConversationStore, IsConversationStore}
use aap_hermes.Adapter.Groups.{GroupComplete, mark_completed, handle_group_complete}
use aap_hermes.Adapter.Groups.Authority.{completed, find-mark_completed, get-handle_group_complete}
use aap_hermes.Tools.Groups.{
  unknown_conversation, not_convener, finished, FinishOutcome, others, complete_conversation,
  aap_group_complete,
}

module _ (C : ConversationStore) (L : IsConversationStore C) (self : String)
    (reaches : String → Bool) (now : String) (c : GroupComplete) (s : C.State) where
  -- The conversation was one that we convened; our store now has its completion and is otherwise
  -- the same; and each other member is sent the notice, which completes the conversation in the
  -- store of any member that knows us as its convener, and changes no other.
  pub record IsConcluded (conv : Conversation) (sent : List (String × GroupComplete)) (t : C.State)
      : Type 0 where
    pub convened_here : conv.convener ≡ self
    pub concluded :
        (k : String)
        → C.get k t ≡ (if c.conversation_id == k then completed now (C.get k s) else C.get k s)
    pub notified : sent ≡ map (λ m. (m, c)) (others self conv.members)
    pub followed :
        (u : C.State) (later k : String) (theirs : Conversation)
        → C.get c.conversation_id u ≡ some theirs
        → theirs.convener ≡ self
        → C.get k (handle_group_complete C later self (some c) u).0
          ≡ (if c.conversation_id == k then completed later (some theirs) else C.get k u)

  -- The outcome is a completion, or an error that has no effect, for its reason.
  abbrev pub IsSound : FinishOutcome C self → Type 0
  IsSound (finished at results, sent, t) =
      (conv : Conversation) × (C.get c.conversation_id s ≡ some conv) × IsConcluded conv sent t
  IsSound (unknown_conversation, sent, t) =
      (C.get c.conversation_id s ≡ none) × (sent ≡ []) × (t ≡ s)
  IsSound (not_convener convener, sent, t) =
      ((conv : Conversation) × (C.get c.conversation_id s ≡ some conv)
        × (conv.convener ≢ self)
        × (convener ≡ conv.convener))
      × (sent ≡ [])
      × (t ≡ s)

  get-mark_completed :
      (k : String)
      → C.get k (C.set_conversations (mark_completed c.conversation_id now (C.conversations s)) s)
        ≡ (if c.conversation_id == k then completed now (C.get k s) else C.get k s)
  get-mark_completed k = ground (
    arith,
    L.get-eq-find (C.set_conversations (mark_completed c.conversation_id now (C.conversations s)) s)
        k,
    L.conversations-set (mark_completed c.conversation_id now (C.conversations s)) s,
    find-mark_completed c.conversation_id now k (C.conversations s),
    L.get-eq-find s k,
  )

  followed_lem :
      (u : C.State) (later k : String) (theirs : Conversation)
      → C.get c.conversation_id u ≡ some theirs
      → theirs.convener ≡ self
      → C.get k (handle_group_complete C later self (some c) u).0
        ≡ (if c.conversation_id == k then completed later (some theirs) else C.get k u)
  followed_lem u later k theirs known ours = ground (
    arith,
    get-handle_group_complete C L u self k later c,
    ==_iff c.conversation_id k,
    ==_iff self theirs.convener,
  )

  complete_conversation-IsSound :
      (conv : Conversation)
      → C.get c.conversation_id s ≡ some conv
      → IsSound (complete_conversation C self reaches now c conv s)
  unfolding complete_conversation
  complete_conversation-IsSound conv known =
      if_elim IsSound (conv.convener == self) _ _
        (λ ours. (
          conv,
          known,
          record {
            convened_here = (==_iff conv.convener self).0 ours;
            concluded = get-mark_completed;
            notified = refl;
            followed = followed_lem;
          },
        ))
        (λ foreign. (
          (
            conv,
            known,
            (λ same. absurd (ground (arith, foreign, (==_iff conv.convener self).1 same))),
            refl,
          ),
          refl,
          refl,
        ))

  complete_found-IsSound :
      (found : Option Conversation)
      → C.get c.conversation_id s ≡ found
      → IsSound (elim found [
        | none ↦ (unknown_conversation, [], s)
        | some conv ↦ complete_conversation C self reaches now c conv s
      ])
  complete_found-IsSound none unknown = (unknown, refl, refl)
  complete_found-IsSound (some conv) known = complete_conversation-IsSound conv known

  -- A call of `aap_group_complete` for a conversation that our store does not have, or that another
  -- convenes, returns an error, sends nothing and leaves the store unchanged. Otherwise we convene
  -- it: our store then has it as completed, with no other change; each other member is sent the
  -- notice; and each that gets it and knows us as the convener has it as completed too.
  pub aap_group_complete-IsSound : IsSound (aap_group_complete C self reaches now c s)
  unfolding aap_group_complete
  aap_group_complete-IsSound = complete_found-IsSound (C.get c.conversation_id s) refl
