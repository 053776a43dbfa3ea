-- ===== src/Setup/Email/Proved.antt =====
-- __init__.py, `_drive_email_verification`: what an attestation rests on.
use aap_hermes.Prelude.{
  String, ◌≡◌, ◌∙◌, ap, arith, Bool, true, false, Option, none, some, if◌then◌else◌, Bool-cases,
  inl, inr,
}
use aap_hermes.Prelude.Text.{◌<>◌, is_empty, strip}
use aap_hermes.Adapter.Identities.{guard}
use aap_hermes.Setup.Desk.{Outside, Action, Desk, ok, StartResponse, pure, rstrip_slash}
use aap_hermes.Setup.Desk.Outcomes.{bind-eq-ok, lift-eq-ok, pure-eq-ok, or_none-eq-ok}
use aap_hermes.Setup.Email.{
  drive_email_verification, verify_with, confirm_with, body_of, start_response, confirmation, flat,
  domain_from_url,
}

module _ (O : Outside) (url subject seed public_key email : String) where
  -- The verifier of the URL is trusted with a key; it answered our request for this subject, public
  -- key and email with a response that it signed; and it attested the code under that key.
  pub record IsProved (attestation : String) : Type 0 where
    pub key : String
    pub looked_up : O.State
    pub trusted : flat (O.verifier_key (domain_from_url O url) looked_up).0 ≡ some key
    pub nonce : String
    pub requested : O.State
    pub body : String
    pub started :
        body_of
          (O.post_start
            (rstrip_slash url <> "/aap/verify/email/start")
            (record {
              email = email;
              subject_address = subject;
              public_key = public_key;
              nonce = nonce;
            })
            seed
            requested).0
        ≡ some body
    pub response : StartResponse
    pub signed : start_response O (domain_from_url O url) key nonce body ≡ some response
    pub token : String
    pub entered : O.State
    pub confirmed :
        (O.confirm_email_verification
          (record {
            subject_address = subject;
            otp_id = response.otp_id;
            token = token;
            verification_endpoint = rstrip_slash url <> "/aap/verify";
            verifier_domain = domain_from_url O url;
            verifier_public_key = key;
          })
          seed
          entered).0
        ≡ some attestation

  kept-eq-some :
      (json attestation : String)
      → guard (O.is_json json) (some json) ≡ some attestation
      → json ≡ attestation
  kept-eq-some json attestation h = elim (Bool-cases (O.is_json json)) [
    | inl parsed ↦ ground (arith, parsed, h)
    | inr broken ↦ absurd (ground (arith, broken, h))
  ]

  abbrev Confirmed : String → StartResponse → String → Type 0
  Confirmed key r attestation =
      (token : String) × (s : O.State) × ((O.confirm_email_verification
          (confirmation O url subject seed public_key email key r token) seed s).0
        ≡ some attestation)

  if-eq-ok :
      {A : Type 0} (b : Bool) (m : Action O (Option A)) (d : Desk O) (a : A)
      → ((if b then pure none else m) d).0 ≡ ok (some a)
      → (m d).0 ≡ ok (some a)
  unfolding pure
  if-eq-ok true m d a h = absurd (ground (arith, h))
  if-eq-ok false m d a h = h

  confirm_with-Confirmed :
      (key : String) (r : StartResponse) (d : Desk O) (attestation : String)
      → (confirm_with O url subject seed public_key email key r d).0 ≡ ok (some attestation)
      → Confirmed key r attestation
  unfolding confirm_with
  confirm_with-Confirmed key r d attestation h =
      let (answer, asked, h1) = bind-eq-ok _ _ d (some attestation) h in
      let h2 = if-eq-ok (is_empty (strip answer)) _ _ attestation h1 in
      let (found, answered, h3) = bind-eq-ok _ _ _ (some attestation) h2 in
      let (json, given, h4) = or_none-eq-ok found _ _ attestation h3 in
      let same = kept-eq-some json attestation (pure-eq-ok _ _ _ h4) in
      let confirmed = lift-eq-ok _ _ _ answered in
      (strip answer, _, confirmed ∙ given ∙ ap some same)

  pub drive-IsProved :
      (d : Desk O) (attestation : String)
      → (drive_email_verification O url subject seed public_key email d).0 ≡ ok (some attestation)
      → IsProved attestation
  unfolding drive_email_verification verify_with
  drive-IsProved d attestation h =
      let (found, looked, h1) = bind-eq-ok _ _ d (some attestation) h in
      let (key, trusted, h2) = or_none-eq-ok (flat found) _ _ attestation h1 in
      let (nonce, drawn, h3) = bind-eq-ok _ _ _ (some attestation) h2 in
      let (reply, posted, h4) = bind-eq-ok _ _ _ (some attestation) h3 in
      let (body, bodied, h5) = or_none-eq-ok (body_of reply) _ _ attestation h4 in
      let (response, signed, h6) = or_none-eq-ok _ _ _ attestation h5 in
      let (token, entered, confirmed) = confirm_with-Confirmed key response _ attestation h6 in
      record {
        key = key;
        looked_up = d.outside;
        trusted = ap flat (lift-eq-ok _ d _ looked) ∙ trusted;
        nonce = nonce;
        requested = _;
        body = body;
        started = ap body_of (lift-eq-ok _ _ _ posted) ∙ bodied;
        response = response;
        signed = signed;
        token = token;
        entered = entered;
        confirmed = confirmed;
      }
