-- ===== src/Adapter/Identities/Vouched.antt =====
-- adapter.py, `_verify_identity_attestations`: what an identity that the user is shown rests on.
use aap_hermes.Prelude.{
  String, ◌≡◌, refl, Bool, true, false, Option, none, some, List, [], ◌∷◌, arith, ◌==◌, ==_iff,
  >>=-eq-some,
}
use aap_hermes.Prelude.Dict.{contains}
use aap_hermes.Adapter.Identities.{
  Attestation, Verification, Identity, trusted, key_of, verified, verify_identity_attestations,
  kept, guard, is_yes, is_no,
}

module _ (V : Verification) (subject : String) where
  -- An identity is that of an attestation for the peer, by a verifier that is trusted, that has not
  -- expired, and that is signed under the key that the verifier publishes.
  pub record IsVouched (i : Identity) : Type 0 where
    pub env_json : String
    pub env : V.Signed
    pub att : Attestation
    pub key : String
    pub parsed : V.from_json env_json ≡ some env
    pub attested : V.from_dict env ≡ some att
    pub about : att.subject_address ≡ subject
    pub listed : contains (trusted V subject) att.verifier ≡ true
    pub current : V.is_past att.expires_at ≡ some false
    pub published : V.verifier_key att.verifier ≡ some (some key)
    pub signed : V.verify env key ≡ some true
    pub named : att.verifier ≡ i.verifier
    pub typed : att.identity_type ≡ some i.type
    pub valued : att.identity_value ≡ some i.value

  abbrev pub All : List Identity → Type 0
  All [] = Unit {0}
  All (i ∷ rest) = IsVouched i × All rest

  guard-eq-some :
      {A : Type 0} (test : Bool) (x : Option A) (a : A)
      → guard test x ≡ some a
      → (test ≡ true) × (x ≡ some a)
  guard-eq-some test x a h = ground (arith, h)

  verified-IsVouched : (j : String) (i : Identity) → verified V subject j ≡ some i → IsVouched i
  unfolding verified
  verified-IsVouched j i h =
      let (env, parsed, h) = >>=-eq-some (V.from_json j) _ i h in
      let (att, decoded, h) =
        >>=-eq-some (guard (V.payload_type env == V.attestation_type) (V.from_dict env)) _ i h in
      let (key, found, h) =
        >>=-eq-some
          (guard (att.subject_address == subject) (
            guard (contains (trusted V subject) att.verifier)
              (guard (is_no (V.is_past att.expires_at)) (key_of V subject att.verifier))))
          _ i h in
      let (type, signed, h) =
        >>=-eq-some (guard (is_yes (V.verify env key)) att.identity_type) _ i h in
      let (value, valued, h) = >>=-eq-some att.identity_value _ i h in
      record {
        env_json = j;
        env = env;
        att = att;
        key = key;
        parsed = parsed;
        attested = ground (arith, decoded);
        about = ground (arith, found, ==_iff att.subject_address subject);
        listed = ground (arith, found);
        current = ground (arith, found);
        published = ground (arith, found);
        signed = ground (arith, signed);
        named = ground (arith, h);
        typed = ground (arith, signed, h);
        valued = ground (arith, valued, h);
      }

  kept-IsVouched :
      (o : Option Identity) (rest : List Identity)
      → ((i : Identity) → o ≡ some i → IsVouched i)
      → All rest
      → All (kept V subject o rest)
  kept-IsVouched none rest sound others = others
  kept-IsVouched (some i) rest sound others = (sound i refl, others)

  -- Each identity of the result rests on an attestation for the expected subject, of a trusted
  -- verifier, that has not expired and that is signed under the verifier's published key.
  pub verify_identity_attestations-IsVouched :
      (js : List String) → All (verify_identity_attestations V subject js)
  unfolding verify_identity_attestations
  verify_identity_attestations-IsVouched [] = tt
  verify_identity_attestations-IsVouched (j ∷ js) =
      kept-IsVouched (verified V subject j) (verify_identity_attestations V subject js)
        (verified-IsVouched j) (verify_identity_attestations-IsVouched js)
