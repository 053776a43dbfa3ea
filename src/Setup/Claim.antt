-- ===== src/Setup/Claim.antt =====
-- __init__.py: `_submit_address_op` and `_run_claim_flow`, which bind an address to a fresh key.
pub mod Calm
pub mod Bound
pub mod Generated
use aap_hermes.Prelude.{
  ℕ, String, Bool, true, false, Option, none, some, List, [], ◌∷◌, if◌then◌else◌,
}
use aap_hermes.Prelude.Text.{◌<>◌, is_empty, strip, code_eq}
use aap_hermes.Setup.Desk.{
  Outside, Action, Reply, unreachable, answered, AddressRequest, Identity, pure, raise, lift, ask,
  ask_yes_no, write_identity, or_none, ◌>>=◌, ◌>>◌, rstrip_slash,
}
use aap_hermes.Setup.Email.{drive_email_verification}

-- `op` of `_submit_address_op`
pub data Op : Type 0 where
  claim : Op
  rotate_key : Op

abbrev pub path_of : Op → String
path_of claim = "/aap/addresses/claim"
path_of rotate_key = "/aap/addresses/rotate-key"

abbrev pub payload_type_of : Op → String
payload_type_of claim = "aap.address-claim/v1"
payload_type_of rotate_key = "aap.address-rotate/v1"

abbrev pub public_key_field_of : Op → String
public_key_field_of claim = "public_key"
public_key_field_of rotate_key = "new_public_key"

abbrev pub success_status : Op → ℕ
success_status claim = 201
success_status rotate_key = 200

-- The fresh keys: two pairs of a private and a public part.
pub record Keys : Type 0 where
  pub seed : String
  pub public_key : String
  pub encryption_private : String
  pub encryption_public : String

unfoldable pub address_of : String → String → String
address_of localpart domain = localpart <> ("^" <> domain)

unfoldable pub address_request : Op → String → Keys → String → String → String → AddressRequest
unfolding address_of
address_request op relay_url k localpart domain attestation = record {
  url = rstrip_slash relay_url <> path_of op;
  payload_type = payload_type_of op;
  iss = address_of localpart domain;
  localpart = localpart;
  public_key_field = public_key_field_of op;
  public_key = k.public_key;
  encryption_key = k.encryption_public;
  endpoint = rstrip_slash relay_url;
  email_attestation = attestation;
}

unfoldable pub identity_of : Keys → String → Identity
identity_of k address = record {
  private_seed = k.seed;
  public_key = k.public_key;
  encryption_private_key = k.encryption_private;
  encryption_public_key = k.encryption_public;
  address = address;
}

-- What `_run_claim_flow` returns.
pub data Claim : Type 0 where
  claimed : Claim
  retry : Claim
  aborted : Claim

module _ (O : Outside) where
  -- Whether the relay took the request; a success whose body is no JSON object raises.
  unfoldable pub taken : Op → Reply → Action O Bool
  taken op unreachable = pure false
  taken op (answered status text) =
      if code_eq status (success_status op)
      then (if O.is_object text then pure true else raise)
      else pure false

  unfoldable pub submit_address_op : Op → String → Keys → String → String → String → Action O Bool
  unfolding taken address_request
  submit_address_op op relay_url k localpart domain attestation =
      lift (O.post_address (address_request op relay_url k localpart domain attestation) k.seed)
      >>= taken op

  unfoldable pub generate_keys : Action O Keys
  generate_keys = do
    signing ← lift O.generate_keypair
    encryption ← lift O.generate_encryption_keypair
    pure (record {
      seed = signing.0;
      public_key = signing.1;
      encryption_private = encryption.0;
      encryption_public = encryption.1;
    })

  unfoldable pub try_again : Action O Claim
  try_again = do
    again ← ask_yes_no "Try again with a different localpart or email?" true
    pure (if again then retry else aborted)

  module _ (op : Op) (relay_url verifier_url domain localpart : String) where
    persist : Keys → Bool → Action O Claim
    unfolding try_again identity_of
    persist k false = try_again
    persist k true = write_identity (identity_of k (address_of localpart domain)) >> pure claimed

    submit_with : Keys → Option String → Action O Claim
    unfolding try_again persist
    submit_with k none = try_again
    submit_with k (some attestation) =
        submit_address_op op relay_url k localpart domain attestation >>= persist k

    claim_with : String → Action O Claim
    unfolding submit_with generate_keys
    claim_with email = do
      k ← generate_keys
      attestation ←
          drive_email_verification O verifier_url (address_of localpart domain) k.seed k.public_key
            email
      submit_with k attestation

    -- `_run_claim_flow`; the recovery mode submits a rotation.
    unfoldable pub run_claim_flow : Action O Claim
    unfolding claim_with
    run_claim_flow = do
      email ← ask "Email for verification" ""
      if is_empty (strip email) then pure aborted else claim_with (strip email)
