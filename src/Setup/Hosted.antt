-- ===== src/Setup/Hosted.antt =====
-- __init__.py: `_check_localpart_availability` and `_setup_hosted_path`, the loop in which the user
-- picks an address of the relay's own domain.
pub mod Ended
pub mod Kept
use aap_hermes.Prelude.{
  ℕ, zero, suc, String, Bool, true, false, not, ◌&&◌, Option, none, some, if◌then◌else◌,
}
use aap_hermes.Prelude.Text.{◌<>◌, is_empty, from, strip, code_eq}
use aap_hermes.Setup.Desk.{
  Outside, Action, Reply, unreachable, answered, pure, raise, unfinished, lift, ask, ask_yes_no,
  save_env_value, ◌>>=◌, ◌>>◌, rstrip_slash,
}
use aap_hermes.Setup.Claim.{Op, claim, rotate_key, Claim, claimed, retry, aborted, run_claim_flow}

pub data Status : Type 0 where
  available : Status
  system_reserved : Status
  reserved : Status
  taken : Status
  malformed : Status
  error : Status

pub record Check : Type 0 where
  pub status : Status
  pub base_localpart : Option String
  pub base_claimed : Option Bool

abbrev unchecked : Status → Check
unchecked status = record { status = status; base_localpart = none; base_claimed = none }

abbrev is_set : Option Bool → Bool
is_set none = false
is_set (some b) = b

abbrev is_unset : Option Bool → Bool
is_unset none = false
is_unset (some b) = not b

abbrev pub hosted_domain : String
hosted_domain = "agentaddress.org"

abbrev pub hosted_relay_url : String
hosted_relay_url = "https://api.agentaddress.org"

abbrev pub hosted_verifier_url : String
hosted_verifier_url = "https://verify.agentaddress.org"

abbrev pub hosted_trust_list_public_key : String
hosted_trust_list_public_key = "HorTQKACHLqp2kt3jscOmdpDuRBpDd15Bqahw05gWwc"

-- `"+" in localpart`
unfoldable pub is_derivative : String → Bool
unfolding from
is_derivative localpart = not (is_empty (from b'+' localpart))

-- Whether the loop goes round again, with the default of the next question.
pub data Next : Type 0 where
  finished : Bool → Next
  again : String → Next

module _ (O : Outside) where
  abbrev status_of : Bool → Bool → Bool → Status
  status_of is_available is_system is_reserved =
      if is_available
      then available
      else if is_system
      then system_reserved
      else if is_reserved
      then reserved
      else taken

  -- The answer of the relay; `system_reserved` is required.
  checked_body : String → Option Bool → Action O Check
  checked_body text none = raise
  checked_body text (some is_system) = pure (record {
    status =
        status_of (is_set (O.flag_field "available" text)) is_system
          (is_set (O.flag_field "reserved" text));
    base_localpart = O.text_field "base_localpart" text;
    base_claimed = O.flag_field "base_claimed" text;
  })

  checked : Reply → Action O Check
  unfolding checked_body
  checked unreachable = pure (unchecked error)
  checked (answered status text) =
      if code_eq status 400
      then pure (unchecked malformed)
      else if not (code_eq status 200)
      then pure (unchecked error)
      else if not (O.is_json text)
      then pure (unchecked error)
      else checked_body text (O.flag_field "system_reserved" text)

  unfoldable pub check_localpart_availability : String → String → Action O Check
  unfolding checked
  check_localpart_availability relay_url localpart =
      lift (O.get (rstrip_slash relay_url <> "/aap/addresses/check") localpart) >>= checked

  settled : String → Claim → Action O Next
  settled localpart claimed = save_env_value "AAP_LOCALPART" localpart >> pure (finished true)
  settled localpart retry = pure (again localpart)
  settled localpart aborted = pure (finished false)

  claim_round : Op → String → Action O Next
  unfolding settled
  claim_round op localpart =
      run_claim_flow O op hosted_relay_url hosted_verifier_url hosted_domain localpart
      >>= settled localpart

  by_status : String → Option Bool → Status → Action O Next
  unfolding claim_round
  by_status localpart base_claimed available =
      if is_derivative localpart && is_unset base_claimed
      then pure (again "")
      else claim_round claim localpart
  by_status localpart base_claimed system_reserved = pure (again "")
  by_status localpart base_claimed reserved = claim_round claim localpart
  by_status localpart base_claimed taken = do
    recover ← ask_yes_no "Recover ownership of this address by re-verifying email?" false
    if recover then claim_round rotate_key localpart else pure (again "")
  by_status localpart base_claimed malformed = pure (again "")
  by_status localpart base_claimed error =
      save_env_value "AAP_LOCALPART" localpart >> pure (finished true)

  picked : String → Action O Next
  unfolding by_status
  picked localpart = do
    check ← check_localpart_availability hosted_relay_url localpart
    by_status localpart check.base_claimed check.status

  -- One round of the loop.
  unfoldable pub hosted_round : String → Action O Next
  unfolding picked
  hosted_round existing_localpart = do
    localpart ←
        ask "AAP localpart (e.g. yourname-bot) — the part before ^ in your AAP address"
          existing_localpart
    if is_empty localpart then pure (finished false) else picked (strip localpart)

  following : (String → Action O Bool) → Next → Action O Bool
  following loop (finished b) = pure b
  following loop (again existing_localpart) = loop existing_localpart

  -- The `while True`, for a number of rounds.
  unfoldable pub hosted_loop : ℕ → String → Action O Bool
  unfolding following
  hosted_loop zero existing_localpart = λ d. (unfinished, d)
  hosted_loop (suc n) existing_localpart =
      hosted_round existing_localpart >>= following (hosted_loop n)

  unfoldable pub setup_hosted_path : ℕ → String → Action O Bool
  setup_hosted_path n existing_localpart =
      save_env_value "AAP_INSTANCE_DOMAIN" hosted_domain
      >> save_env_value "AAP_RELAY_URL" hosted_relay_url
      >> save_env_value "AAP_VERIFIER_URL" hosted_verifier_url
      >> save_env_value "AAP_TRUST_LIST_PUBLIC_KEY_B64" hosted_trust_list_public_key
      >> hosted_loop n existing_localpart
