-- ===== src/Examples/Replies.antt =====
-- Answers of the user: to an introduction, by a bare word, and to a group.
use aap_hermes.Prelude.{String, refl, arith, ◌≡◌, ◌↔◌, true, false, none, some, [], ◌∷◌}
use aap_hermes.Prelude.Text.{strip, lstrip, rstrip, is_space, is_empty, starts_with, take_text}
use aap_hermes.Reasoning.{init}
use aap_hermes.HomeContexts.{
  GroupHomeContext, File, missing, contexts, encode_all, load, save, others, last_twenty, drop,
  record_group_home_context,
}
use aap_hermes.Adapter.HomeReply.{Desk, mirror_home_reply_to_group_session}
use aap_hermes.Adapter.HomeReply.Queued.{IsQueued, label_of, mirror_home_reply-IsQueued}
use aap_hermes.Adapter.Introductions.{Introduction}
use aap_hermes.Commands.Discover.{discover_approve, discover_deny}
use aap_hermes.Commands.Discover.Answered
use aap_hermes.Commands.Discover.Answered.{discover_answers}
use aap_hermes.Runtime.{Host, approve, resolve_intro, resolve_proposal, predispatch_consent_check}
use aap_hermes.Runtime.Consent.{AnswersIntro, AnswersProposal, predispatch_consent_check_iff}
use aap_hermes.Examples.Stores.{
  introduction_map, introduction_map-IsIntroductionStore, proposal_map, session_map,
  session_map-IsSessions,
}
use aap_hermes.Prelude.Dict.{Dict}
use aap_hermes.Examples.World.{james, eve, me}

abbrev asked : Introduction
asked = record {
  verifier_nonce = "i1";
  verifier_domain = "verify.example";
  searcher = eve;
  searcher_label = none;
  expires_at = "2027";
}

abbrev relay_of : String → String
relay_of domain = domain

-- one introduction is pending
abbrev pending : Dict Introduction
pending = ("i1", asked) ∷ []

discover_answers_example :
    Answered.IsSound introduction_map introduction_map-IsIntroductionStore relay_of
      (λ p. true)
      "i1"
      pending
      true
      (discover_approve introduction_map relay_of (λ p. true) ("i1" ∷ []) pending)
    × Answered.IsSound introduction_map introduction_map-IsIntroductionStore relay_of
        (λ p. true)
        "i1"
        pending
        false
        (discover_deny introduction_map relay_of (λ p. true) ("i1" ∷ []) pending)
discover_answers_example =
    discover_answers introduction_map introduction_map-IsIntroductionStore relay_of (λ p. true) "i1"
      pending []

abbrev up : Host
up = record { adapter = true; loop = true }

predispatch_consent_check_iff_example :
    ((predispatch_consent_check introduction_map proposal_map
          (λ t. t)
          up
          " approve"
          pending
          ((λ nonce. none), [])
        ≡ resolve_intro approve "i1")
      ↔ AnswersIntro introduction_map proposal_map
          (λ t. t)
          up
          approve
          "i1"
          (strip " approve")
          (some "i1"))
    × ((predispatch_consent_check introduction_map proposal_map
            (λ t. t)
            up
            " approve"
            pending
            ((λ nonce. none), [])
          ≡ resolve_proposal approve "i1")
        ↔ AnswersProposal introduction_map proposal_map
            (λ t. t)
            up
            approve
            "i1"
            (strip " approve")
            (some "i1")
            none)
predispatch_consent_check_iff_example =
    predispatch_consent_check_iff introduction_map proposal_map (λ t. t) up " approve" approve "i1"
      pending ((λ nonce. none), [])

-- the home chat was told of a group
abbrev told : GroupHomeContext
told = record {
  platform = "telegram";
  chat_id = "77";
  conversation_id = "c1";
  group_label = "lunch";
  sender = james;
  text_preview = "12:30?";
  recorded_at = 5;
}

abbrev told_file : File
told_file = contexts (encode_all (told ∷ []))

wrote : record_group_home_context 4 true told missing ≡ some told_file
unfolding record_group_home_context load save others last_twenty drop encode_all take_text
wrote = refl

nothing_stored : load 4 missing ≡ some []
unfolding load
nothing_stored = refl

a_reply : is_empty (strip "fine") ≡ false
unfolding strip lstrip rstrip is_space
a_reply = refl

no_command : starts_with (strip "fine") "/aap" ≡ false
unfolding starts_with strip lstrip rstrip is_space
no_command = refl

abbrev desk : Desk session_map me
desk = record { db = some (λ id. []); scheduler = some init }

mirror_home_reply-IsQueued_example :
    let outcome =
      mirror_home_reply_to_group_session session_map me true 6 true "fine" "telegram" "77" told_file
        desk in
    (outcome.0 ≡ true)
    × IsQueued session_map session_map-IsSessions me true desk "c1"
        (label_of told)
        (strip "fine")
        outcome.1
mirror_home_reply-IsQueued_example =
    mirror_home_reply-IsQueued session_map session_map-IsSessions me true desk 4 6 told "fine"
      missing told_file [] init _ (λ id. []) _ _ refl refl refl a_reply no_command nothing_stored tt
      (omega arith) wrote refl refl refl refl refl
