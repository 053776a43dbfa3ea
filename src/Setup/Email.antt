-- ===== src/Setup/Email.antt =====
-- __init__.py: `_drive_email_verification`, by which the user proves to own an email address.
pub mod Calm
pub mod Proved
use aap_hermes.Prelude.{String, Bool, Option, none, some, ◌==◌, ◌&&◌, not, if◌then◌else◌}
use aap_hermes.Prelude.Text.{◌<>◌, is_empty, before, strip, code_eq}
use aap_hermes.Adapter.Inbound.{Envelope}
use aap_hermes.Adapter.Identities.{guard}
use aap_hermes.Setup.Desk.{
  Outside, Action, Reply, unreachable, answered, StartRequest, StartResponse, Confirmation, pure,
  lift, ask, or_none, ◌>>=◌, rstrip_slash,
}

-- `_domain_from_url`
unfoldable pub domain_from_url : Outside → String → String
domain_from_url O url =
    let (netloc, path) = O.urlparse url in if is_empty netloc then before b'/' path else netloc

-- The body of a response with status 200.
unfoldable pub body_of : Reply → Option String
body_of unreachable = none
body_of (answered status text) = if code_eq status 200 then some text else none

abbrev pub flat : Option (Option String) → Option String
flat none = none
flat (some key) = key

abbrev acceptable : String → StartResponse → Bool
acceptable nonce r = r.request_nonce == nonce && not (is_empty r.otp_id)

abbrev matching : String → Option StartResponse → Option StartResponse
matching nonce none = none
matching nonce (some r) = if acceptable nonce r then some r else none

abbrev from_verifier : Outside → String → String → Envelope → Option StartResponse
from_verifier O domain key e =
    guard
      ((e.payload_type == O.start_response_type)
        && (e.iss == O.verifier_relay_address domain)
        && O.verify_envelope e key)
      (O.start_from_dict e)

-- The verifier's answer to the start, if it is signed by the verifier and for this request.
unfoldable pub start_response : Outside → String → String → String → String → Option StartResponse
start_response O domain key nonce body = elim (O.from_json body) [
  | none ↦ none
  | some e ↦ matching nonce (from_verifier O domain key e)
]

module _ (O : Outside) (verifier_url subject seed public_key email : String) where
  abbrev pub confirmation : String → StartResponse → String → Confirmation
  confirmation key r token = record {
    subject_address = subject;
    otp_id = r.otp_id;
    token = token;
    verification_endpoint = rstrip_slash verifier_url <> "/aap/verify";
    verifier_domain = domain_from_url O verifier_url;
    verifier_public_key = key;
  }

  abbrev pub start_request : String → StartRequest
  start_request nonce = record {
    email = email;
    subject_address = subject;
    public_key = public_key;
    nonce = nonce;
  }

  -- From the code on that the user got by email.
  confirm_with : String → StartResponse → Action O (Option String)
  confirm_with key r = do
    answer ← ask "Enter the code from the email" ""
    if is_empty (strip answer)
        then pure none
        else (lift (O.confirm_email_verification (confirmation key r (strip answer)) seed) >>= λ a.
            or_none a (λ json. pure (guard (O.is_json json) (some json))))

  verify_with : String → Action O (Option String)
  unfolding confirm_with
  verify_with key = do
    nonce ← lift O.token_urlsafe
    reply ← lift (
        O.post_start (rstrip_slash verifier_url <> "/aap/verify/email/start") (start_request nonce)
          seed)
    or_none (body_of reply) (λ body.
        or_none (start_response O (domain_from_url O verifier_url) key nonce body)
          (confirm_with key))

  -- The attestation, or `none` where the verification fails.
  unfoldable pub drive_email_verification : Action O (Option String)
  unfolding verify_with
  drive_email_verification = do
    key ← lift (O.verifier_key (domain_from_url O verifier_url))
    or_none (flat key) verify_with
