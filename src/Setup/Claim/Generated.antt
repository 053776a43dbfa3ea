-- ===== src/Setup/Claim/Generated.antt =====
-- __init__.py, the setup: where the keys of an identity come from, and what the relay is sent.
use aap_hermes.Prelude.{String, ◌≡◌, refl, ◌∙◌, ap}
use aap_hermes.Prelude.Text.{◌<>◌}
use aap_hermes.Setup.Desk.{Outside, AddressRequest, Identity, Desk, ok}
use aap_hermes.Setup.Desk.Outcomes.{bind-eq-ok, lift-eq-ok, pure-eq-ok}
use aap_hermes.Setup.Claim.{Op, Keys, generate_keys, identity_of, address_of, address_request}

module _ (O : Outside) where
  -- Both pairs were drawn: neither is a constant of the code.
  pub record IsGenerated (k : Keys) : Type 0 where
    pub signed_in : O.State
    pub signing : (O.generate_keypair signed_in).0 ≡ (k.seed, k.public_key)
    pub encrypted_in : O.State
    pub encryption :
        (O.generate_encryption_keypair encrypted_in).0 ≡ (k.encryption_private, k.encryption_public)

  pub generate_keys-IsGenerated :
      (k : Keys) (d : Desk O) → (generate_keys O d).0 ≡ ok k → IsGenerated k
  unfolding generate_keys
  generate_keys-IsGenerated k d h =
      let (signing, drawn, h1) = bind-eq-ok _ _ d k h in
      let (encryption, drawn', h2) = bind-eq-ok _ _ _ k h1 in
      let made = pure-eq-ok _ k _ h2 in
      record {
        signed_in = d.outside;
        signing = lift-eq-ok _ d signing drawn ∙ ap (λ x. (x.seed, x.public_key)) made;
        encrypted_in = _;
        encryption =
            lift-eq-ok _ _ encryption drawn'
            ∙ ap (λ x. (x.encryption_private, x.encryption_public)) made;
      }

-- The identity holds these keys and this address.
pub record IsIdentity (k : Keys) (localpart domain : String) (i : Identity) : Type 0 where
  pub seed : i.private_seed ≡ k.seed
  pub public_key : i.public_key ≡ k.public_key
  pub encryption_private : i.encryption_private_key ≡ k.encryption_private
  pub encryption_public : i.encryption_public_key ≡ k.encryption_public
  pub address : i.address ≡ localpart <> ("^" <> domain)

pub identity_of-IsIdentity :
    (k : Keys) (localpart domain : String)
    → IsIdentity k localpart domain (identity_of k (address_of localpart domain))
unfolding identity_of address_of
identity_of-IsIdentity k localpart domain = record {
  seed = refl;
  public_key = refl;
  encryption_private = refl;
  encryption_public = refl;
  address = refl;
}

-- The request names the address and the public keys, and carries the attestation.
pub record IsRequest (k : Keys) (localpart domain attestation : String) (q : AddressRequest)
    : Type 0 where
  pub iss : q.iss ≡ localpart <> ("^" <> domain)
  pub localpart_named : q.localpart ≡ localpart
  pub public_key : q.public_key ≡ k.public_key
  pub encryption_key : q.encryption_key ≡ k.encryption_public
  pub attested : q.email_attestation ≡ attestation

pub address_request-IsRequest :
    (op : Op) (relay_url : String) (k : Keys) (localpart domain attestation : String)
    → IsRequest k localpart domain attestation
        (address_request op relay_url k localpart domain attestation)
unfolding address_request address_of
address_request-IsRequest op relay_url k localpart domain attestation = record {
  iss = refl;
  localpart_named = refl;
  public_key = refl;
  encryption_key = refl;
  attested = refl;
}
