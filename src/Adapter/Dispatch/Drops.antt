-- ===== src/Adapter/Dispatch/Drops.antt =====
-- What `_dispatch` does with a chat message that may not pass.
use aap_hermes.Prelude.{String, ◌≡◌, Bool, false, arith}
use aap_hermes.Gateway.{Sessions}
use aap_hermes.Adapter.Stores.{ConversationStore, RelationshipStore}
use aap_hermes.Adapter.Chat.{ChatMessage}
use aap_hermes.Adapter.Chat.Gate.{may_chat, trust_preamble-is_some}
use aap_hermes.Adapter.Dispatch.{World, Handler, Deliver, dispatch_chat}

module _ (C : ConversationStore) (R : RelationshipStore) (S : Sessions) (repr : String → String)
    (my_address : String) (handler : Handler C R S) (deliver : Deliver C R S) (writes recent : Bool)
    (m : ChatMessage) (w : World C R S) where
  abbrev pub passes : Bool
  passes =
      may_chat C repr my_address m.iss m.conversation_id w.conversations
        (R.any_relationship_with m.iss w.relationships) recent

  -- A chat message changes nothing, starts no turn and is shown to nobody, unless it comes from a
  -- member of the recorded group that it names, or is 1:1 from a peer that has a relationship with
  -- us or that we wrote to recently.
  pub dispatch_chat_dropped :
      passes ≡ false → dispatch_chat C R S repr my_address handler deliver writes recent m w ≡ w
  unfolding dispatch_chat
  dispatch_chat_dropped h = ground (
    arith,
    trust_preamble-is_some C repr my_address m.iss m.conversation_id w.conversations
        (R.any_relationship_with m.iss w.relationships) recent,
  )
