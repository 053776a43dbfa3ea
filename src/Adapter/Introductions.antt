-- ===== src/Adapter/Introductions.antt =====
-- adapter.py: `_handle_discovery_introduction_request`, by which a verifier introduces a peer that
-- looks for our agent.
pub mod Prompt
pub mod Relayed
use aap_hermes.Prelude.{
  String, ◌≡◌, Bool, true, false, not, Option, none, some, List, [], ◌∷◌, ◌++◌, ◌&&◌, ◌==◌, ◌>>=◌,
  if◌then◌else◌,
}
use aap_hermes.Prelude.Text.{starts_with, from, drop_text}
use aap_hermes.Prelude.Dict.{Dict, contains}
use aap_hermes.Contacts.{Contact}
use aap_hermes.Adapter.Stores.{Notice, inbound_notice}
use aap_hermes.Adapter.Identities.{Identity, is_yes, guard}
use aap_hermes.Adapter.Inbound.{Envelope, Directory}
use aap_hermes.Adapter.Introductions.Prompt.{Searcher, render_introduction_prompt}

-- `PendingIntroductionRow`
pub record Introduction : Type 0 where
  pub verifier_nonce : String
  pub verifier_domain : String
  pub searcher : String
  pub searcher_label : Option String
  pub expires_at : String

-- `PendingIntroductions` of the `aap` package.
pub record IntroductionStore : Type 1 where
  pub State : Type 0
  pub get : String → State → Option Introduction
  pub add : Introduction → State → State
  pub resolve : String → State → State
  pub rows : State → List Introduction
  pub most_recent_nonce : State → Option String

-- The store maps nonces to introductions, and `rows` lists them.
pub record IsIntroductionStore (I : IntroductionStore) : Type 0 where
  pub get-add :
      (row : Introduction) (s : I.State) (k : String)
      → I.get k (I.add row s) ≡ (if row.verifier_nonce == k then some row else I.get k s)
  pub get-resolve :
      (nonce : String) (s : I.State) (k : String)
      → I.get k (I.resolve nonce s) ≡ (if nonce == k then none else I.get k s)

-- `DiscoveryIntroductionRequest`
pub record IntroductionRequest : Type 0 where
  pub searcher : String
  pub searcher_label_for_recipient : Option String
  pub verifier_nonce : String
  pub expires_at : String
  pub searcher_attestations : List String

-- The functions of the `aap` package that the handler calls; `verify` is `none` where it raises.
pub record Sdk : Type 0 where
  pub verifier_relay_address : String → String
  pub verify : Envelope → String → Option Bool
  pub extract_searcher_identities : List String → String → List String → Dict String → List Identity

-- The keys of the trusted verifiers that have one; `none` where a look-up raises.
unfoldable pub verifier_public_keys : Directory → List String → Option (Dict String)
verifier_public_keys dir [] = some []
verifier_public_keys dir (d ∷ ds) = do
  known ← dir.verifier_key d
  rest ← verifier_public_keys dir ds
  some (elim known [ none ↦ rest | some key ↦ (d, key) ∷ rest ])

module _ (sdk : Sdk) (dir : Directory) where
  -- The verifier's domain and the keys, if the envelope is one of a trusted verifier's relay and
  -- signed by it.
  unfoldable pub vouching_verifier : Envelope → Option (String × Dict String)
  unfolding verifier_public_keys starts_with from drop_text
  vouching_verifier envelope = do
    domains ← guard (starts_with envelope.iss "verifier^") dir.trust_list
    known ←
        let domain = drop_text 1 (from b'^' envelope.iss) in
        guard (contains domains domain && envelope.iss == sdk.verifier_relay_address domain)
          (dir.verifier_key domain)
    key ← known
    keys ← guard (is_yes (sdk.verify envelope key)) (verifier_public_keys dir domains)
    some (drop_text 1 (from b'^' envelope.iss), keys)

  abbrev trusted_domains : List String
  trusted_domains = elim dir.trust_list [ none ↦ [] | some domains ↦ domains ]

  unfoldable pub searcher_of : IntroductionRequest → String × Dict String → Searcher
  searcher_of intro (domain, keys) = record {
    address = intro.searcher;
    label = intro.searcher_label_for_recipient;
    identities =
        sdk.extract_searcher_identities intro.searcher_attestations intro.searcher trusted_domains
          keys;
    verifier_domain = domain;
    nonce = intro.verifier_nonce;
  }

  module _ (I : IntroductionStore) (lower repr : String → String) where
    introduced :
        List Contact → IntroductionRequest → String × Dict String → I.State → I.State × List Notice
    introduced contacts intro (domain, keys) s = (
      I.add
          (record {
            verifier_nonce = intro.verifier_nonce;
            verifier_domain = domain;
            searcher = intro.searcher;
            searcher_label = intro.searcher_label_for_recipient;
            expires_at = intro.expires_at;
          })
          s,
      inbound_notice intro.searcher
            (render_introduction_prompt lower repr contacts (searcher_of intro (domain, keys)))
          ∷ [],
    )

    -- The request is `none` if it cannot be decoded, and the contacts if `ContactSource.load` raises.
    unfoldable pub handle_discovery_introduction_request :
        Option (List Contact)
        → Envelope
        → Option IntroductionRequest
        → I.State
        → I.State × List Notice
    unfolding vouching_verifier introduced
    handle_discovery_introduction_request contacts envelope none s = (s, [])
    handle_discovery_introduction_request contacts envelope (some intro) s =
        elim (vouching_verifier envelope) [
          | none ↦ (s, [])
          | some found ↦ elim contacts [
            | none ↦ (s, [])
            | some known ↦ introduced known intro found s
          ]
        ]
