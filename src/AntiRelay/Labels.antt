-- ===== src/AntiRelay/Labels.antt =====
-- The label `[Agent <address>]:` of an inbound message, as the adapter writes it and as
-- `peers_who_have_messaged_session` reads it back.
use aap_hermes.Prelude.{String, ◌≡◌, refl, ap, true, false, Option, none, some, arith}
use aap_hermes.Prelude.Text.{◌<>◌, starts_with, drop_text, before, from, strip, is_space, is_empty}
use aap_hermes.Prelude.Text.Laws.{lacks, before-append, from-append, append-nil}
use aap_hermes.Prelude.Text.Joined.{concat}
use aap_hermes.AntiRelay.{agent_prefix, blank_and_more, bracket}
use aap_hermes.Adapter.GroupNote.{GroupNote, group_trust_note}
use aap_hermes.Adapter.PeerNotes.{labelled, reply_window_trust_note, relationship_trust_note}

labelled_tail :
    (sender message : String)
    → drop_text 6 (labelled sender message) ≡ " " <> sender <> "]: " <> message
unfolding labelled drop_text concat ◌<>◌
labelled_tail sender message = ap (λ t. " " <> sender <> "]: " <> t) (append-nil message)

starts : (sender message : String) → starts_with (labelled sender message) "[Agent" ≡ true
unfolding labelled starts_with concat ◌<>◌
starts sender message = refl

starts_tail : (message : String) → starts_with ("]: " <> message) "]:" ≡ true
unfolding starts_with ◌<>◌
starts_tail message = refl

before_label :
    (sender message : String)
    → lacks bracket sender ≡ true
    → before bracket (" " <> sender <> "]: " <> message) ≡ " " <> sender
unfolding before ◌<>◌
before_label sender message h =
    ap (λ t. " " <> t) (before-append bracket sender ("]: " <> message) h refl)

from_label :
    (sender message : String)
    → lacks bracket sender ≡ true
    → from bracket (" " <> sender <> "]: " <> message) ≡ "]: " <> message
unfolding from ◌<>◌
from_label sender message h = from-append bracket sender ("]: " <> message) h refl

strip_label : (sender : String) → strip (" " <> sender) ≡ strip sender
unfolding strip is_space ◌<>◌
strip_label sender = refl

blank_label : (sender : String) → is_empty sender ≡ false → blank_and_more (" " <> sender) ≡ true
unfolding is_space ◌<>◌
blank_label String.[] h = cc
blank_label (String.◌∷◌ c s) h = refl

-- The label that the adapter puts before a message is read back as the sender's address, if the
-- address is not empty, holds no `]` and neither begins nor ends with a blank.
pub agent_prefix-labelled :
    (sender message : String)
    → is_empty sender ≡ false
    → lacks bracket sender ≡ true
    → strip sender ≡ sender
    → agent_prefix (labelled sender message) ≡ some sender
unfolding agent_prefix
agent_prefix-labelled sender message e l trimmed =
    rw
      (
        labelled_tail sender message,
        starts sender message,
        before_label sender message l,
        from_label sender message l,
      )
      (ground (arith, starts_tail message, blank_label sender e, strip_label sender, trimmed))

pub agent_prefix-group_trust_note :
    (repr : String → String) (n : GroupNote) (s : String)
    → agent_prefix (group_trust_note repr n <> s) ≡ none
unfolding agent_prefix group_trust_note starts_with concat ◌<>◌
agent_prefix-group_trust_note repr n s = refl

pub agent_prefix-reply_window_trust_note :
    (sender s : String) → agent_prefix (reply_window_trust_note sender <> s) ≡ none
unfolding agent_prefix reply_window_trust_note starts_with concat ◌<>◌
agent_prefix-reply_window_trust_note sender s = refl

pub agent_prefix-relationship_trust_note :
    (sender type s : String) (resource : Option String)
    → agent_prefix (relationship_trust_note sender type resource <> s) ≡ none
unfolding agent_prefix relationship_trust_note starts_with concat ◌<>◌
agent_prefix-relationship_trust_note sender type s resource = refl
