-- ===== src/Setup/Byod.antt =====
-- __init__.py: `_setup_byod_path`, the setup of an address of the operator's own domain, with
-- `_run_domain_claim_flow`.
pub mod Chosen
pub mod Quiet
pub mod Guarded
use aap_hermes.Prelude.{
  ℕ, String, Bool, true, false, not, ◌&&◌, ◌||◌, ◌==◌, Option, none, some, List, [], ◌∷◌,
  if◌then◌else◌,
}
use aap_hermes.Prelude.Text.{◌<>◌, is_empty, strip, code_eq}
use aap_hermes.Setup.Desk.{
  Outside, Action, Reply, unreachable, answered, Identity, IdentityFile, absent, unreadable,
  no_object, saved, Desk, Result, ok, pure, raise, or_raise, lift, ask, ask_yes_no, save_env_value,
  write_identity, ◌>>=◌, ◌>>◌, rstrip_slash,
}
use aap_hermes.Setup.Claim.{Keys, generate_keys, identity_of, address_of}
use aap_hermes.Setup.Hosted.{
  hosted_domain, hosted_relay_url, hosted_verifier_url, hosted_trust_list_public_key,
}

-- Where the operator's agent connects.
pub record Relay : Type 0 where
  pub relay_url : String
  pub verifier_url : String
  pub trust_root : String

-- What is configured so far.
pub record Existing : Type 0 where
  pub domain : String
  pub localpart : String
  pub relay_url : String
  pub verifier_url : String
  pub trust_root : String

abbrev public_relay : Relay
public_relay = record {
  relay_url = hosted_relay_url;
  verifier_url = hosted_verifier_url;
  trust_root = hosted_trust_list_public_key;
}

-- `a or b`, for texts
abbrev pub or_else : String → String → String
or_else s t = if is_empty s then t else s

module _ (O : Outside) where
  unfoldable pub ask_choice : String → ℕ → Action O ℕ
  ask_choice question def = lift (O.prompt_choice question def) >>= or_raise

  abbrev claim_token : String → String
  claim_token text = elim (O.text_field "claim_token" text) [ none ↦ "" | some token ↦ token ]

  domain_confirmed : Reply → Bool
  domain_confirmed unreachable = false
  domain_confirmed (answered status text) = code_eq status 201 || code_eq status 409

  confirm_domain : String → String → Action O Bool
  unfolding domain_confirmed
  confirm_domain relay_url domain = do
    pressed ← ask "Press Enter when the token is in place" ""
    answer ← ask "Enter the OTP code from the email" ""
    if is_empty (strip answer)
        then pure false
        else (lift (
              O.post_json (rstrip_slash relay_url <> "/aap/domains/claim-confirm")
                (("domain", domain) ∷ ("otp_token", strip answer) ∷ []))
            >>= λ reply. pure (domain_confirmed reply))

  domain_started : String → String → Reply → Action O Bool
  unfolding confirm_domain
  domain_started relay_url domain unreachable = pure false
  domain_started relay_url domain (answered status text) =
      if code_eq status 409
      then pure true
      else if not (code_eq status 200)
      then pure false
      else if not (O.is_object text)
      then raise
      else if is_empty (claim_token text)
      then pure false
      else confirm_domain relay_url domain

  -- Whether the domain is claimed at the relay, by us now or before.
  unfoldable pub run_domain_claim_flow : String → String → Action O Bool
  unfolding domain_started
  run_domain_claim_flow relay_url domain = do
    answer ← ask ("Contact email for the " <> (domain <> " account")) ""
    if is_empty (strip answer)
        then pure false
        else (lift (
              O.post_json (rstrip_slash relay_url <> "/aap/domains/claim-start")
                (("domain", domain) ∷ ("contact_email", strip answer) ∷ []))
            >>= domain_started relay_url domain)

  unfoldable pub own_relay : Existing → String → Action O (Option Relay)
  own_relay e domain = do
    relay ← ask "Relay URL" (or_else e.relay_url ("https://api." <> domain))
    if is_empty (rstrip_slash (strip relay)) then pure none else (do
      verifier ←
          ask "Verifier URL (used by /aap verify commands)"
            (or_else e.verifier_url hosted_verifier_url)
      root ← ask "Trust-list public key for your relay (advanced)" e.trust_root
      pure (
          if is_empty (strip root)
          then none
          else some (record {
            relay_url = rstrip_slash (strip relay);
            verifier_url = or_else (rstrip_slash (strip verifier)) hosted_verifier_url;
            trust_root = strip root;
          })))

  unfoldable pub pick_relay : Existing → String → ℕ → Action O (Option Relay)
  unfolding own_relay
  pick_relay e domain choice =
      if code_eq choice 1 then own_relay e domain else pure (some public_relay)

  -- The claim of the domain, and whether the setup goes on.
  pub claim_domain : String → String → Action O Bool
  claim_domain relay_url domain = do
    now ← ask_yes_no ("Run domain claim against " <> (relay_url <> " now?")) true
    if now
        then (do
          claimed ← run_domain_claim_flow relay_url domain
          if claimed then pure true else ask_yes_no "Save partial AAP config anyway?" false)
        else pure true

  save_settings : String → String → Relay → Action O (Unit {0})
  save_settings domain localpart r =
      save_env_value "AAP_INSTANCE_DOMAIN" domain
      >> save_env_value "AAP_RELAY_URL" r.relay_url
      >> save_env_value "AAP_VERIFIER_URL" r.verifier_url
      >> save_env_value "AAP_TRUST_LIST_PUBLIC_KEY_B64" r.trust_root
      >> save_env_value "AAP_LOCALPART" localpart

  write_new : String → Keys → Action O Bool
  write_new address k = write_identity (identity_of k address) >> pure true

  -- An identity for this very address is overwritten only if the operator says so.
  by_existing : String → Keys → IdentityFile → Action O Bool
  unfolding write_new
  by_existing address k absent = write_new address k
  by_existing address k unreadable = write_new address k
  by_existing address k no_object = raise
  by_existing address k (saved i) =
      if i.address == address
      then (do
        overwrite ← ask_yes_no "Overwrite with new keypair?" false
        if overwrite then write_new address k else pure true)
      else write_new address k

  save_identity : String → Action O Bool
  unfolding by_existing
  save_identity address = generate_keys O >>= λ k d. by_existing address k d.files.identity d

  with_relay : String → String → Option Relay → Action O Bool
  unfolding claim_domain save_settings save_identity
  with_relay domain localpart none = pure false
  with_relay domain localpart (some r) = do
    go_on ← claim_domain r.relay_url domain
    if go_on
        then (save_settings domain localpart r >> save_identity (address_of localpart domain))
        else pure false

  with_localpart : Existing → String → String → Action O Bool
  unfolding with_relay pick_relay
  with_localpart e domain localpart = do
    choice ←
        ask_choice "Relay"
          (if not (is_empty e.relay_url) && not (e.relay_url == hosted_relay_url) then 1 else 0)
    relay ← pick_relay e domain choice
    with_relay domain localpart relay

  with_domain : Existing → String → Action O Bool
  unfolding with_localpart
  with_domain e domain = do
    answer ←
        ask "AAP localpart (e.g. yourname-bot) — the part before ^ in your AAP address" e.localpart
    if is_empty (strip answer) then pure false else with_localpart e domain (strip answer)

  -- `lower` is Python's `str.lower`.
  unfoldable pub setup_byod_path : (String → String) → Existing → Action O Bool
  unfolding with_domain
  setup_byod_path lower e = do
    answer ← ask "Your domain (e.g. example.com)" e.domain
    let domain = lower (strip answer) in
        if is_empty domain || (domain == hosted_domain) then pure false else with_domain e domain
