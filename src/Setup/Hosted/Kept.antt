-- ===== src/Setup/Hosted/Kept.antt =====
-- __init__.py, the setup of a hosted address: what it leaves in the files.
use aap_hermes.Prelude.{String, ◌≡◌, ◌≢◌, inl, inr, ◌⊎◌}
use aap_hermes.Prelude.Dict.{insert}
use aap_hermes.Setup.Desk.{Outside, Identity, saved, Files, Desk, Result, ok}
use aap_hermes.Setup.Claim.{Op, Claim, claimed}
use aap_hermes.Setup.Claim.Bound.{IsBound, IsClaim}
use aap_hermes.Setup.Hosted.{
  hosted_domain, hosted_relay_url, hosted_verifier_url, hosted_trust_list_public_key,
}

module _ (O : Outside) where
  abbrev pub named : String → Files → Files
  named localpart f = record f { env = insert "AAP_LOCALPART" localpart f.env }

  -- A localpart was saved: without a claim, or with the identity that the relay bound to it.
  pub record IsNamed (f after : Files) : Type 0 where
    pub localpart : String
    pub reason :
        (after ≡ named localpart f)
        ⊎ ((op : Op) × ((i : Identity) × (IsBound O op hosted_relay_url hosted_verifier_url
                  hosted_domain localpart i
                × (after ≡ named localpart (record f { identity = saved i })))))

  -- The files are the same, or a step ended with its success and a localpart was saved.
  abbrev pub IsSetUp : {A : Type 0} → A → Files → Result A × Desk O → Type 0
  IsSetUp good f x = ((x.1.files ≡ f) × (x.0 ≢ ok good)) ⊎ ((x.0 ≡ ok good) × IsNamed f x.1.files)

  module _ (op : Op) (localpart : String) (f : Files) where
    abbrev IsHosted : Identity → Type 0
    IsHosted = IsBound O op hosted_relay_url hosted_verifier_url hosted_domain localpart

    unclaimed :
        (x : Result Claim × Desk O)
        → IsClaim O op hosted_relay_url hosted_verifier_url hosted_domain localpart f x
        → x.0 ≢ ok claimed
        → x.1.files ≡ f
    unclaimed x (inl (same, other)) h = same
    unclaimed x (inr (success, rest)) h = absurd (h success)

  -- the settings of the hosted relay, which are saved first
  abbrev pub hosted_settings : Files → Files
  hosted_settings f = record f {
    env = insert "AAP_TRUST_LIST_PUBLIC_KEY_B64" hosted_trust_list_public_key (
        insert "AAP_VERIFIER_URL" hosted_verifier_url (
          insert "AAP_RELAY_URL" hosted_relay_url
            (insert "AAP_INSTANCE_DOMAIN" hosted_domain f.env)));
  }
