-- ===== src/Commands/Rotation/Vouched.antt =====
-- commands.py, the rotation of our key: what a new identity rests on.
use aap_hermes.Prelude.{String, ◌≡◌, refl, sym, subst, some, ◌⊎◌}
use aap_hermes.Prelude.Text.{◌<>◌}
use aap_hermes.Setup.Desk.{
  rstrip_slash, Outside, Action, answered, StartResponse, Identity, IdentityFile, saved, Pending,
  Files, Desk, Result, ok, pure, getenv, ◌>>=◌,
}
use aap_hermes.Setup.Desk.Laws.{Keeps, bind_elim}
use aap_hermes.Setup.Email.{domain_from_url, body_of, start_response}
use aap_hermes.Commands.Rotation.{Answer, start_url, domain_of_pending}

module _ (O : Outside) where
  -- A pending rotation that the verifier started: it signed a response to our request for this
  -- address, email and new key.
  pub record IsStarted (p : Pending) : Type 0 where
    pub key : String
    pub nonce : String
    pub requested : O.State
    pub body : String
    pub response : StartResponse
    pub asked :
        body_of
          (O.post_start
            (start_url O p.verifier_url)
            (record {
              email = p.email;
              subject_address = p.address;
              public_key = p.new_public;
              nonce = nonce;
            })
            p.new_seed
            requested).0
        ≡ some body
    pub signed : start_response O (domain_from_url O p.verifier_url) key nonce body ≡ some response
    pub same_otp : p.otp_id ≡ response.otp_id

  -- An identity with the new key of a pending rotation, after the verifier has attested the user's
  -- code for it and the relay has taken the rotation with this attestation.
  pub record IsRotated (p : Pending) (i : Identity) : Type 0 where
    pub key : String
    pub token : String
    pub entered : O.State
    pub attestation : String
    pub confirmed :
        (O.confirm_email_verification
          (record {
            subject_address = p.address;
            otp_id = p.otp_id;
            token = token;
            verification_endpoint = rstrip_slash p.verifier_url <> "/aap/verify";
            verifier_domain = domain_of_pending O p;
            verifier_public_key = key;
          })
          p.new_seed
          entered).0
        ≡ some attestation
    pub localpart : String
    pub encryption : String × String
    pub submitted : O.State
    pub text : String
    pub accepted :
        (O.post_address
          (record {
            url = rstrip_slash p.relay_url <> "/aap/addresses/rotate-key";
            payload_type = "aap.address-rotate/v1";
            iss = p.address;
            localpart = localpart;
            public_key_field = "new_public_key";
            public_key = p.new_public;
            encryption_key = encryption.1;
            endpoint = rstrip_slash p.relay_url;
            email_attestation = attestation;
          })
          p.new_seed
          submitted).0
        ≡ answered 200 text
    pub written : i ≡ record {
      private_seed = p.new_seed;
      public_key = p.new_public;
      encryption_private_key = encryption.0;
      encryption_public_key = encryption.1;
      address = p.address;
    }

  -- The identity file is what it was, or holds such an identity; and what is pending was started.
  pub record IsVouched (old : IdentityFile) (f : Files) : Type 0 where
    pub identity :
        (f.identity ≡ old)
        ⊎ ((p : Pending) × ((i : Identity) × (IsStarted p
                × (IsRotated p i × (f.identity ≡ saved i)))))
    pub pending : (p : Pending) → f.rotation ≡ some p → IsStarted p

module _ {O : Outside} where
  abbrev KeepsVouched : IdentityFile → Result Answer × Desk O → Type 0
  KeepsVouched old x = IsVouched O old x.1.files

  pub bind-IsVouched :
      {A : Type 0} (old : IdentityFile) (m : Action O A) (k : A → Action O Answer) (d : Desk O)
      → Keeps m
      → IsVouched O old d.files
      → ((a : A) → (m d).0 ≡ ok a → (m d).1.files ≡ d.files → IsVouched O old (k a (m d).1).1.files)
      → IsVouched O old ((m >>= k) d).1.files
  bind-IsVouched old m k d keeps v then_k =
      let v' = subst (IsVouched O old) (sym (keeps.same d)) v in
      bind_elim (KeepsVouched old) m k d (λ a e. then_k a e (keeps.same d)) (λ e. v') (λ e. v')

  pub same_files :
      (old : IdentityFile) {f g : Files} → g ≡ f → IsVouched O old f → IsVouched O old g
  same_files old e v = subst (IsVouched O old) (sym e) v

  pub pure-IsVouched :
      (old : IdentityFile) (a : Answer) (d : Desk O)
      → IsVouched O old d.files
      → IsVouched O old (pure a d).1.files
  unfolding pure
  pure-IsVouched old a d v = v

  pub getenv-Keeps : (k def : String) → Keeps (getenv {O = O} k def)
  unfolding getenv
  getenv-Keeps k def = record { same = λ d. refl }
