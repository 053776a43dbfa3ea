-- ===== src/Setup/Claim/Calm.antt =====
-- __init__.py, `_run_claim_flow`: it ends, and its parts but the last leave the files alone.
use aap_hermes.Prelude.{String, Bool, true, false, Option, none, some}
use aap_hermes.Prelude.Text.{is_empty, strip, code_eq}
use aap_hermes.Setup.Desk.{Outside, IsOutside, Reply, unreachable, answered}
use aap_hermes.Setup.Desk.Laws.{
  Keeps, bind-Keeps, lift-Keeps, pure-Keeps, raise-Keeps, if-Keeps, ask_yes_no-Keeps, Calm,
  bind-Calm, then-Calm, lift-Calm, pure-Calm, raise-Calm, if-Calm, ask-Calm, ask_yes_no-Calm,
  write_identity-Calm,
}
use aap_hermes.Setup.Email.Calm.{drive-Calm}
use aap_hermes.Setup.Claim.{
  Op, Keys, taken, submit_address_op, generate_keys, try_again, persist, submit_with, claim_with,
  run_claim_flow, success_status,
}

module _ {O : Outside} where
  taken-Keeps : (op : Op) (r : Reply) → Keeps (taken O op r)
  unfolding taken
  taken-Keeps op unreachable = pure-Keeps false
  taken-Keeps op (answered status text) =
      if-Keeps (code_eq status (success_status op)) _ _
        (if-Keeps (O.is_object text) _ _ (pure-Keeps true) raise-Keeps) (pure-Keeps false)

  pub submit-Keeps :
      (op : Op) (url : String) (k : Keys) (localpart domain attestation : String)
      → Keeps (submit_address_op O op url k localpart domain attestation)
  unfolding submit_address_op
  submit-Keeps op url k localpart domain attestation =
      bind-Keeps _ _ (lift-Keeps _) (taken-Keeps op)

  pub generate_keys-Keeps : Keeps (generate_keys O)
  unfolding generate_keys
  generate_keys-Keeps =
      bind-Keeps _ _ (lift-Keeps _) λ a. bind-Keeps _ _ (lift-Keeps _) λ b. pure-Keeps _

  pub try_again-Keeps : Keeps (try_again O)
  unfolding try_again
  try_again-Keeps = bind-Keeps _ _ (ask_yes_no-Keeps _ true) λ a. pure-Keeps _

  module _ (L : IsOutside O) where
    taken-Calm : (op : Op) (r : Reply) → Calm L (taken O op r)
    unfolding taken
    taken-Calm op unreachable = pure-Calm L false
    taken-Calm op (answered status text) =
        if-Calm L (code_eq status (success_status op)) _ _
          (if-Calm L (O.is_object text) _ _ (pure-Calm L true) (raise-Calm L)) (pure-Calm L false)

    generate_keys-Calm : Calm L (generate_keys O)
    unfolding generate_keys
    generate_keys-Calm =
        bind-Calm L _ _ (lift-Calm L _ L.generate_keypair_le)
          λ a. bind-Calm L _ _ (lift-Calm L _ L.generate_encryption_keypair_le) λ b. pure-Calm L _

    try_again-Calm : Calm L (try_again O)
    unfolding try_again
    try_again-Calm = bind-Calm L _ _ (ask_yes_no-Calm L _ true) λ a. pure-Calm L _

    module _ (op : Op) (relay_url verifier_url domain localpart : String) where
      persist-Calm :
          (k : Keys) (b : Bool) → Calm L (persist O op relay_url verifier_url domain localpart k b)
      unfolding persist
      persist-Calm k false = try_again-Calm
      persist-Calm k true = then-Calm L _ _ (write_identity-Calm L _) (pure-Calm L _)

      submit_with-Calm :
          (k : Keys) (a : Option String)
          → Calm L (submit_with O op relay_url verifier_url domain localpart k a)
      unfolding submit_with submit_address_op
      submit_with-Calm k none = try_again-Calm
      submit_with-Calm k (some attestation) =
          bind-Calm L _ _
            (bind-Calm L _ _ (lift-Calm L _ (L.post_address_le _ k.seed)) (taken-Calm op))
            (persist-Calm k)

      claim_with-Calm :
          (email : String) → Calm L (claim_with O op relay_url verifier_url domain localpart email)
      unfolding claim_with
      claim_with-Calm email = bind-Calm L _ _ generate_keys-Calm λ k.
          bind-Calm L _ _ (drive-Calm verifier_url _ k.seed k.public_key email L)
            (submit_with-Calm k)

      pub run_claim_flow-Calm : Calm L (run_claim_flow O op relay_url verifier_url domain localpart)
      unfolding run_claim_flow
      run_claim_flow-Calm = bind-Calm L _ _ (ask-Calm L _ _) λ email.
          if-Calm L (is_empty (strip email)) _ _ (pure-Calm L _) (claim_with-Calm (strip email))
