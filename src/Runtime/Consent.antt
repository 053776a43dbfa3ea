-- ===== src/Runtime/Consent.antt =====
-- _runtime.py, `predispatch_consent_check`: which question a bare word answers.
use aap_hermes.Prelude.{
  String, ◌≡◌, ◌≢◌, ◌↔◌, true, false, refl, ◌==◌, Option, none, some, arith, ==_iff,
}
use aap_hermes.Prelude.Text.{strip}
use aap_hermes.Adapter.Stores.{ProposalStore}
use aap_hermes.Adapter.Introductions.{IntroductionStore}
use aap_hermes.Runtime.{
  Verb, approve, deny, block, verb_of, resolve_intro, resolve_proposal, Host, verdict_for,
  predispatch_consent_check,
}

-- The word for each verb.
abbrev pub spelling : Verb → String
spelling approve = "approve"
spelling deny = "deny"
spelling block = "block"

differ : (a b : String) → (a == b) ≡ false → a ≢ b
differ a b h = λ same. absurd (ground (arith, h, (==_iff a b).1 same))

deny-neq : ◌≢◌ {A = String} "deny" "approve"
unfolding ◌==◌
deny-neq = differ "deny" "approve" refl

block-neq : ◌≢◌ {A = String} "block" "approve"
unfolding ◌==◌
block-neq = differ "block" "approve" refl

block-neq-deny : ◌≢◌ {A = String} "block" "deny"
unfolding ◌==◌
block-neq-deny = differ "block" "deny" refl

verb_of_iff : (w : String) (verb : Verb) → (verb_of w ≡ some verb) ↔ (w ≡ spelling verb)
unfolding verb_of
verb_of_iff w approve = ground (
  arith,
  ==_iff w "approve",
  ==_iff w "deny",
  ==_iff w "block",
  deny-neq,
  block-neq,
  block-neq-deny,
)
verb_of_iff w deny = ground (
  arith,
  ==_iff w "approve",
  ==_iff w "deny",
  ==_iff w "block",
  deny-neq,
  block-neq,
  block-neq-deny,
)
verb_of_iff w block = ground (
  arith,
  ==_iff w "approve",
  ==_iff w "deny",
  ==_iff w "block",
  deny-neq,
  block-neq,
  block-neq-deny,
)

swap_first : {A X Y B : Type 0} → A ↔ (X × B) → X ↔ Y → A ↔ (Y × B)
swap_first f g = (λ a. (g.0 (f.0 a).0, (f.0 a).1), λ yb. f.1 (g.1 yb.0, yb.1))

module _ (I : IntroductionStore) (P : ProposalStore) (lower : String → String) (host : Host) where
  abbrev pub IntroPends : String → Option String → Type 0
  IntroPends nonce intro = (host.adapter ≡ true) × (host.loop ≡ true) × (intro ≡ some nonce)

  abbrev pub ProposalPends : Verb → String → Option String → Option String → Type 0
  ProposalPends verb nonce intro proposal =
      (verb ≢ block)
      × (host.adapter ≡ true)
      × (host.loop ≡ true)
      × (intro ≡ none)
      × (proposal ≡ some nonce)

  abbrev pub AnswersIntro : Verb → String → String → Option String → Type 0
  AnswersIntro verb nonce word intro = (word ≡ spelling verb) × IntroPends nonce intro

  abbrev pub AnswersProposal : Verb → String → String → Option String → Option String → Type 0
  AnswersProposal verb nonce word intro proposal =
      (word ≡ spelling verb) × ProposalPends verb nonce intro proposal

  intro_iff :
      (verb : Verb) (nonce : String) (word : Option Verb) (intro proposal : Option String)
      → (verdict_for I P lower host word intro proposal ≡ resolve_intro verb nonce)
        ↔ ((word ≡ some verb) × IntroPends nonce intro)
  unfolding verdict_for
  intro_iff verb nonce none intro proposal = ground arith
  intro_iff verb nonce (some w) (some i) proposal = ground arith
  intro_iff verb nonce (some approve) none none = ground arith
  intro_iff verb nonce (some approve) none (some p) = ground arith
  intro_iff verb nonce (some deny) none none = ground arith
  intro_iff verb nonce (some deny) none (some p) = ground arith
  intro_iff verb nonce (some block) none proposal = ground arith

  proposal_iff :
      (verb : Verb) (nonce : String) (word : Option Verb) (intro proposal : Option String)
      → (verdict_for I P lower host word intro proposal ≡ resolve_proposal verb nonce)
        ↔ ((word ≡ some verb) × ProposalPends verb nonce intro proposal)
  unfolding verdict_for
  proposal_iff verb nonce none intro proposal = ground arith
  proposal_iff verb nonce (some w) (some i) proposal = ground arith
  proposal_iff verb nonce (some approve) none none = ground arith
  proposal_iff verb nonce (some approve) none (some p) = ground arith
  proposal_iff verb nonce (some deny) none none = ground arith
  proposal_iff verb nonce (some deny) none (some p) = ground arith
  proposal_iff verb nonce (some block) none proposal = ground arith

  -- A reply of the user answers an introduction exactly if it consists of one of the three words, up
  -- to case and space, while the adapter and its loop are there and an introduction is pending; it
  -- then answers the newest one. It answers a proposal exactly if the word is not `block` and no
  -- introduction is pending; it then answers the newest proposal.
  pub predispatch_consent_check_iff :
      (text : String) (verb : Verb) (nonce : String) (intros : I.State) (proposals : P.State)
      → ((predispatch_consent_check I P lower host text intros proposals ≡ resolve_intro verb nonce)
          ↔ AnswersIntro verb nonce (lower (strip text)) (I.most_recent_nonce intros))
        × ((predispatch_consent_check I P lower host text intros proposals
              ≡ resolve_proposal verb nonce)
            ↔ AnswersProposal verb nonce
                (lower (strip text))
                (I.most_recent_nonce intros)
                (P.most_recent_inbound_nonce proposals))
  unfolding predispatch_consent_check
  predispatch_consent_check_iff text verb nonce intros proposals =
      let w = lower (strip text) in
      let intro = I.most_recent_nonce intros in
      let proposal = P.most_recent_inbound_nonce proposals in
      (
        swap_first (intro_iff verb nonce (verb_of w) intro proposal) (verb_of_iff w verb),
        swap_first (proposal_iff verb nonce (verb_of w) intro proposal) (verb_of_iff w verb),
      )
