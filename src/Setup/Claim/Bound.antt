-- ===== src/Setup/Claim/Bound.antt =====
-- __init__.py, `_run_claim_flow`: which identity is saved, and when.
use aap_hermes.Prelude.{
  String, ◌≡◌, ◌≢◌, refl, ◌∙◌, ap, arith, Bool, true, false, Option, none, some, if◌then◌else◌, inl,
  inr, ◌⊎◌,
}
use aap_hermes.Prelude.Text.{is_empty, strip}
use aap_hermes.Setup.Desk.{
  Outside, AddressRequest, Identity, saved, Files, Desk, Action, Reply, unreachable, answered,
  Result, ok, raised, unfinished, pure, raise, write_identity, ◌>>=◌, ◌>>◌,
}
use aap_hermes.Setup.Desk.Laws.{code_eq-eq, Keeps, bind_elim, ask-Keeps, ask_yes_no-Keeps}
use aap_hermes.Setup.Desk.Outcomes.{bind-eq-ok, lift-eq-ok}
use aap_hermes.Setup.Email.Calm.{drive-Keeps}
use aap_hermes.Setup.Email.Proved.{IsProved, drive-IsProved}
use aap_hermes.Setup.Claim.Generated.{
  IsGenerated, generate_keys-IsGenerated, IsIdentity, identity_of-IsIdentity, IsRequest,
  address_request-IsRequest,
}
use aap_hermes.Setup.Claim.Calm.{submit-Keeps, generate_keys-Keeps}
use aap_hermes.Setup.Claim.{
  Op, Keys, Claim, claimed, retry, aborted, taken, submit_address_op, try_again, persist,
  submit_with, claim_with, run_claim_flow, success_status, identity_of, address_of, address_request,
}

module _ (O : Outside) (op : Op) (relay_url verifier_url domain localpart : String) where
  -- The identity of a newly drawn key pair, for which the user proved an email address, and which the
  -- relay has bound to the address.
  pub record IsBound (i : Identity) : Type 0 where
    pub keys : Keys
    pub generated : IsGenerated O keys
    pub email : String
    pub attestation : String
    pub proved :
        IsProved O verifier_url
          (address_of localpart domain)
          keys.seed
          keys.public_key
          email
          attestation
    pub submitted : O.State
    pub text : String
    pub request : AddressRequest
    pub asked : IsRequest keys localpart domain attestation request
    pub accepted :
        (O.post_address request keys.seed submitted).0 ≡ answered (success_status op) text
    pub written : IsIdentity keys localpart domain i

  -- The files are the same, or the claim succeeded and such an identity was written.
  abbrev pub IsClaim : Files → Result Claim × Desk O → Type 0
  IsClaim f x =
      ((x.1.files ≡ f) × (x.0 ≢ ok claimed))
      ⊎ ((x.0 ≡ ok claimed)
          × ((i : Identity) × IsBound i × (x.1.files ≡ record f { identity = saved i })))

  raised-IsClaim : (f : Files) (d : Desk O) → d.files ≡ f → IsClaim f (raised, d)
  raised-IsClaim f d same = inl (same, λ e. absurd (ground (arith, e)))

  unfinished-IsClaim : (f : Files) (d : Desk O) → d.files ≡ f → IsClaim f (unfinished, d)
  unfinished-IsClaim f d same = inl (same, λ e. absurd (ground (arith, e)))

  bind-IsClaim :
      {A : Type 0} (f : Files) (m : Action O A) (k : A → Action O Claim) (d : Desk O)
      → Keeps m
      → d.files ≡ f
      → ((a : A) → (m d).0 ≡ ok a → (m d).1.files ≡ f → IsClaim f (k a (m d).1))
      → IsClaim f ((m >>= k) d)
  bind-IsClaim f m k d keeps same then_k =
      bind_elim (IsClaim f) m k d (λ a e. then_k a e (keeps.same d ∙ same))
        (λ e. raised-IsClaim f (m d).1 (keeps.same d ∙ same))
        (λ e. unfinished-IsClaim f (m d).1 (keeps.same d ∙ same))

  pure-IsClaim :
      (f : Files) (c : Claim) (d : Desk O) → c ≢ claimed → d.files ≡ f → IsClaim f (pure c d)
  unfolding pure
  pure-IsClaim f c d other same = inl (same, λ e. other (ground (arith, e)))

  settled_lem : (more : Bool) → (if more then retry else aborted) ≢ claimed
  settled_lem true e = absurd (ground (arith, e))
  settled_lem false e = absurd (ground (arith, e))

  try_again-IsClaim : (f : Files) (d : Desk O) → d.files ≡ f → IsClaim f (try_again O d)
  unfolding try_again
  try_again-IsClaim f d same =
      bind-IsClaim f _ _ d (ask_yes_no-Keeps _ true) same
        λ more answered_so kept. pure-IsClaim f _ _ (settled_lem more) kept

  persist-IsClaim :
      (f : Files) (k : Keys) (b : Bool) (d : Desk O)
      → (b ≡ true → IsBound (identity_of k (address_of localpart domain)))
      → d.files ≡ f
      → IsClaim f (persist O op relay_url verifier_url domain localpart k b d)
  unfolding persist ◌>>◌ ◌>>=◌ pure write_identity
  persist-IsClaim f k false d bound same = try_again-IsClaim f d same
  persist-IsClaim f k true d bound same = inr (
    refl,
    (
      identity_of k (address_of localpart domain),
      bound refl,
      ap {A = Files} {B = Files}
          (λ g. record g { identity = saved (identity_of k (address_of localpart domain)) }) same,
    ),
  )

  taken-eq-ok :
      (r : Reply) (d : Desk O)
      → (taken O op r d).0 ≡ ok true
      → (text : String) × (r ≡ answered (success_status op) text)
  unfolding taken pure raise
  taken-eq-ok unreachable d h = absurd (ground (arith, h))
  taken-eq-ok (answered status text) d h =
      (text, ground (arith, h, code_eq-eq status (success_status op)))

  submitted_lem :
      (k : Keys) (attestation : String) (d : Desk O)
      → (submit_address_op O op relay_url k localpart domain attestation d).0 ≡ ok true
      → (s : O.State) × (text : String) × ((O.post_address
            (address_request op relay_url k localpart domain attestation)
            k.seed
            s).0
          ≡ answered (success_status op) text)
  unfolding submit_address_op
  submitted_lem k attestation d h =
      let (reply, posted, h1) = bind-eq-ok _ _ d true h in
      let (text, answer) = taken-eq-ok reply _ h1 in
      (d.outside, text, lift-eq-ok _ d reply posted ∙ answer)

  submit_with-IsClaim :
      (f : Files) (email : String) (k : Keys) (a : Option String) (d : Desk O)
      → ((attestation : String)
          → a ≡ some attestation
          → IsProved O verifier_url
              (address_of localpart domain)
              k.seed
              k.public_key
              email
              attestation)
      → IsGenerated O k
      → d.files ≡ f
      → IsClaim f (submit_with O op relay_url verifier_url domain localpart k a d)
  unfolding submit_with
  submit_with-IsClaim f email k none d proved fresh same = try_again-IsClaim f d same
  submit_with-IsClaim f email k (some attestation) d proved fresh same =
      bind-IsClaim f _ _ d (submit-Keeps op relay_url k localpart domain attestation) same
        λ accepted submitted kept.
          persist-IsClaim f k accepted _
            (λ yes_it_did.
              let (s, text, answer) =
                submitted_lem k attestation d (submitted ∙ ap ok yes_it_did) in
              record {
                keys = k;
                generated = fresh;
                email = email;
                attestation = attestation;
                proved = proved attestation refl;
                submitted = s;
                text = text;
                request = address_request op relay_url k localpart domain attestation;
                asked = address_request-IsRequest op relay_url k localpart domain attestation;
                accepted = answer;
                written = identity_of-IsIdentity k localpart domain;
              })
            kept

  claim_with-IsClaim :
      (f : Files) (email : String) (d : Desk O)
      → d.files ≡ f
      → IsClaim f (claim_with O op relay_url verifier_url domain localpart email d)
  unfolding claim_with
  claim_with-IsClaim f email d same = bind-IsClaim f _ _ d generate_keys-Keeps same λ k made kept.
      bind-IsClaim f _ _ _
        (drive-Keeps verifier_url (address_of localpart domain) k.seed k.public_key email) kept
        λ a driven kept'.
          submit_with-IsClaim f email k a _
            (λ attestation given.
              drive-IsProved O verifier_url (address_of localpart domain) k.seed k.public_key email
                _ attestation (driven ∙ ap ok given))
            (generate_keys-IsGenerated O k d made) kept'

  if-IsClaim :
      (f : Files) (b : Bool) (m n : Action O Claim) (d : Desk O)
      → IsClaim f (m d)
      → IsClaim f (n d)
      → IsClaim f ((if b then m else n) d)
  if-IsClaim f true m n d p q = p
  if-IsClaim f false m n d p q = q

  aborted_lem : aborted ≢ claimed
  aborted_lem e = absurd (ground (arith, e))

  -- A claim or a recovery leaves the files as they are, or it succeeds and writes an identity of a
  -- fresh key pair: the user proved an email address for this key to a trusted verifier, and the
  -- relay accepted a request for the address with this key and the attestation.
  pub run_claim_flow-IsClaim :
      (d : Desk O) → IsClaim d.files (run_claim_flow O op relay_url verifier_url domain localpart d)
  unfolding run_claim_flow
  run_claim_flow-IsClaim d = bind-IsClaim d.files _ _ d (ask-Keeps _ _) refl λ email asked kept.
      if-IsClaim d.files (is_empty (strip email)) _ _ _
        (pure-IsClaim d.files aborted _ aborted_lem kept)
        (claim_with-IsClaim d.files (strip email) _ kept)
