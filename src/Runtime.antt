-- ===== src/Runtime.antt =====
-- _runtime.py: `predispatch_consent_check`, which takes a bare `approve`, `deny` or `block` for the
-- answer to the newest question, and what then runs.
pub mod Consent
use aap_hermes.Prelude.{
  String, Bool, true, false, not, Option, none, some, List, [], ◌∷◌, ◌++◌, ◌&&◌, ◌||◌, ◌==◌,
  is_some, if◌then◌else◌,
}
use aap_hermes.Prelude.Text.{strip}
use aap_hermes.Adapter.Stores.{RelationshipStore, ProposalStore}
use aap_hermes.Adapter.Relationships.{Self, Stores}
use aap_hermes.Commands.Friends
use aap_hermes.Commands.Friends.{Client, friend_accept_cmd, friend_decline_cmd}
use aap_hermes.Commands.Discover
use aap_hermes.Adapter.Introductions.{IntroductionStore}
use aap_hermes.Commands.Discover.{discover_approve, discover_deny, discover_block}

pub data Verb : Type 0 where
  approve : Verb
  deny : Verb
  block : Verb

-- The word that the reply consists of.
unfoldable pub verb_of : String → Option Verb
verb_of text =
    if text == "approve"
    then some approve
    else if text == "deny"
    then some deny
    else if text == "block"
    then some block
    else none

-- The hook's verdict: `None`, or the dispatch is skipped and a task is scheduled.
pub data Verdict : Type 0 where
  pass : Verdict
  resolve_intro : Verb → String → Verdict
  resolve_proposal : Verb → String → Verdict

-- Whether there is an adapter, and whether an event loop runs.
pub record Host : Type 0 where
  pub adapter : Bool
  pub loop : Bool

module _ (I : IntroductionStore) (P : ProposalStore) (lower : String → String) where
  proposal_verdict : Host → Verb → Option String → Verdict
  proposal_verdict host block proposal = pass
  proposal_verdict host approve none = pass
  proposal_verdict host deny none = pass
  proposal_verdict host approve (some nonce) =
      if host.loop then resolve_proposal approve nonce else pass
  proposal_verdict host deny (some nonce) = if host.loop then resolve_proposal deny nonce else pass

  verdict_of : Host → Verb → Option String → Option String → Verdict
  unfolding proposal_verdict
  verdict_of host verb (some intro) proposal = if host.loop then resolve_intro verb intro else pass
  verdict_of host verb none proposal = proposal_verdict host verb proposal

  -- What the hook does with the word that it has read.
  unfoldable pub verdict_for : Host → Option Verb → Option String → Option String → Verdict
  unfolding verdict_of
  verdict_for host none intro proposal = pass
  verdict_for host (some verb) intro proposal =
      if host.adapter then verdict_of host verb intro proposal else pass

  -- `predispatch_consent_check`
  unfoldable pub predispatch_consent_check : Host → String → I.State → P.State → Verdict
  unfolding verdict_for verb_of
  predispatch_consent_check host text intros proposals =
      verdict_for host (verb_of (lower (strip text))) (I.most_recent_nonce intros)
        (P.most_recent_inbound_nonce proposals)

  module _ (R : RelationshipStore) where
    -- `_resolve_proposal_async`, whose argument is the verb that the hook has read; `accept` and
    -- `decline` are the envelopes that are signed for a nonce.
    unfoldable pub resolve_proposal_async :
        Client
        → Self
        → (String → String)
        → (String → String)
        → Verb
        → String
        → Stores R P
        → Friends.Outcome R P
    resolve_proposal_async client me accept decline approve nonce st =
        friend_accept_cmd R P client me (accept nonce) nonce st
    resolve_proposal_async client me accept decline verb nonce st =
        friend_decline_cmd R P client (decline nonce) nonce st

  module _ (relay_of : String → String) (reaches : String → Bool)
      (sorted : List String → List String) (trust_list : List String) (posts : String → Bool) where
    -- `_resolve_intro_async`; `none` is the notice that the introduction is no longer pending.
    unfoldable pub resolve_intro_async : Verb → String → I.State → Option Discover.Reply × I.State
    resolve_intro_async approve nonce s =
        let (reply, sent, s') = discover_approve I relay_of reaches (nonce ∷ []) s in
        (some reply, s')
    resolve_intro_async deny nonce s =
        let (reply, sent, s') = discover_deny I relay_of reaches (nonce ∷ []) s in (some reply, s')
    resolve_intro_async block nonce s = elim (I.get nonce s) [
      | none ↦ (none, s)
      | some row ↦
          let (reply, s') = discover_block I sorted trust_list posts (row.searcher ∷ []) s in
          (some reply, I.resolve nonce s')
    ]
