-- ===== src/Commands/Rotation.antt =====
-- commands.py: `_rotate_key_start` and `_rotate_key_confirm`, which replace the key of our address.
pub mod Vouched
pub mod Started
pub mod Rotated
use aap_hermes.Prelude.{ℕ, String, Bool, Option, none, some, ◌∷◌, [], if◌then◌else◌}
use aap_hermes.Prelude.Text.{◌<>◌, is_empty, code_eq}
use aap_hermes.Setup.Desk.{
  Outside, Action, Reply, unreachable, answered, StartRequest, StartResponse, Confirmation,
  AddressRequest, Identity, Pending, Desk, Result, ok, pure, raise, or_raise, lift, getenv,
  write_identity, write_rotation, ◌>>=◌, ◌>>◌, rstrip_slash,
}
use aap_hermes.Setup.Email.{domain_from_url, body_of, start_response}
use aap_hermes.Setup.Byod.{or_else}

-- What the commands answer.
pub data Answer : Type 0 where
  bad_address : Answer
  untrusted_verifier : Answer
  start_rejected : Answer
  invalid_start : Answer
  started : Answer
  no_pending : Answer
  not_confirmed : Answer
  network_error : Answer
  rotation_rejected : Answer
  rotated : Answer

module _ (O : Outside) where
  abbrev pub rotation_request : String → String → String → String → StartRequest
  rotation_request address email public_key nonce = record {
    email = email;
    subject_address = address;
    public_key = public_key;
    nonce = nonce;
  }

  abbrev pub start_url : String → String
  start_url verifier_url = rstrip_slash verifier_url <> "/aap/verify/email/start"

  module _ (address email relay_url verifier_url : String) where
    abbrev pub pending_of : String → String → StartResponse → Pending
    pending_of seed public_key r = record {
      address = address;
      email = email;
      otp_id = r.otp_id;
      new_seed = seed;
      new_public = public_key;
      relay_url = relay_url;
      verifier_url = verifier_url;
      verifier_domain = domain_from_url O verifier_url;
    }

    pend : String → String → Option StartResponse → Action O Answer
    pend seed public_key none = pure invalid_start
    pend seed public_key (some r) =
        write_rotation (some (pending_of seed public_key r)) >> pure started

    start_answered : String → String → String → String → Option String → Action O Answer
    unfolding pend
    start_answered key seed public_key nonce none = pure start_rejected
    start_answered key seed public_key nonce (some body) =
        pend seed public_key (start_response O (domain_from_url O verifier_url) key nonce body)

    start_with : Option String → Action O Answer
    unfolding start_answered
    start_with none = pure untrusted_verifier
    start_with (some key) = do
      pair ← lift O.generate_keypair
      nonce ← lift O.token_urlsafe
      reply ← lift (
          O.post_start (start_url verifier_url) (rotation_request address email pair.1 nonce)
            pair.0)
      start_answered key pair.0 pair.1 nonce (body_of reply)

  pub rotate_from : String → String → Option (String × String) → Action O Answer
  unfolding start_with
  rotate_from address email none = pure bad_address
  rotate_from address email (some parsed) = do
    relay_url ← getenv "AAP_RELAY_URL" ("https://api." <> parsed.1)
    verifier_url ← getenv "AAP_VERIFIER_URL" ("https://verify." <> parsed.1)
    found ← lift (O.verifier_key (domain_from_url O verifier_url))
    key ← or_raise found
    start_with address email relay_url verifier_url key

  -- `_rotate_key_start`
  unfoldable pub rotate_key_start : String → String → Action O Answer
  unfolding rotate_from
  rotate_key_start address email = rotate_from address email (O.parse_address address)

  abbrev pub domain_of_pending : Pending → String
  domain_of_pending p = or_else p.verifier_domain (domain_from_url O p.verifier_url)

  abbrev pub rotation_confirmation : Pending → String → String → Confirmation
  rotation_confirmation p key token = record {
    subject_address = p.address;
    otp_id = p.otp_id;
    token = token;
    verification_endpoint = rstrip_slash p.verifier_url <> "/aap/verify";
    verifier_domain = domain_of_pending p;
    verifier_public_key = key;
  }

  abbrev pub rotation : Pending → String → String → String → AddressRequest
  rotation p localpart encryption_public attestation = record {
    url = rstrip_slash p.relay_url <> "/aap/addresses/rotate-key";
    payload_type = "aap.address-rotate/v1";
    iss = p.address;
    localpart = localpart;
    public_key_field = "new_public_key";
    public_key = p.new_public;
    encryption_key = encryption_public;
    endpoint = rstrip_slash p.relay_url;
    email_attestation = attestation;
  }

  abbrev pub new_identity : Pending → String → String → Identity
  new_identity p encryption_private encryption_public = record {
    private_seed = p.new_seed;
    public_key = p.new_public;
    encryption_private_key = encryption_private;
    encryption_public_key = encryption_public;
    address = p.address;
  }

  replaced : Pending → String × String → Reply → Action O Answer
  replaced p pair unreachable = pure network_error
  replaced p pair (answered status text) =
      if code_eq status 200
      then (write_identity (new_identity p pair.0 pair.1) >> write_rotation none >> pure rotated)
      else pure rotation_rejected

  submit_rotation : Pending → Option String → Action O Answer
  unfolding replaced
  submit_rotation p none = pure not_confirmed
  submit_rotation p (some attestation) =
      if O.is_json attestation
      then (do
        parsed ← or_raise (O.parse_address p.address)
        pair ← lift O.generate_encryption_keypair
        reply ← lift (O.post_address (rotation p parsed.0 pair.1 attestation) p.new_seed)
        replaced p pair reply)
      else raise

  confirm_under : Pending → String → Option String → Action O Answer
  unfolding submit_rotation
  confirm_under p token none = pure untrusted_verifier
  confirm_under p token (some key) =
      lift (O.confirm_email_verification (rotation_confirmation p key token) p.new_seed)
      >>= submit_rotation p

  confirm_pending : String → Option Pending → Action O Answer
  unfolding confirm_under
  confirm_pending token none = pure no_pending
  confirm_pending token (some p) = do
    found ← lift (O.verifier_key (domain_of_pending p))
    key ← or_raise found
    confirm_under p token key

  -- `_rotate_key_confirm`
  unfoldable pub rotate_key_confirm : String → Action O Answer
  unfolding confirm_pending
  rotate_key_confirm token d = confirm_pending token d.files.rotation d
