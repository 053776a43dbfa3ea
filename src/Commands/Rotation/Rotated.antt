-- ===== src/Commands/Rotation/Rotated.antt =====
-- commands.py, the rotation of our key: what any commands of the user make of our identity.
use aap_hermes.Prelude.{String, ◌≡◌, some, List, [], ◌∷◌}
use aap_hermes.Setup.Desk.{Outside, Reply, IdentityFile, Pending, Desk}
use aap_hermes.Commands.Rotation.{
  rotate_key_start, rotation_confirmation, rotation, rotate_key_confirm,
}
use aap_hermes.Commands.Rotation.Vouched.{IsStarted}

module _ {O : Outside} where
  module _ (old : IdentityFile) (p : Pending) (begun : IsStarted O p) where
    abbrev Submitted : String → String × String → Reply → Type 0
    Submitted attestation pair reply =
        (localpart : String) × ((s : O.State) × ((O.post_address
              (rotation O p localpart pair.1 attestation) p.new_seed s).0
            ≡ reply))

    abbrev Attested : String → String → Type 0
    Attested key attestation =
        (token : String) × ((s : O.State) × ((O.confirm_email_verification
              (rotation_confirmation O p key token) p.new_seed s).0
            ≡ some attestation))

module _ (O : Outside) where
  -- The two commands, with the user's address and what the user types.
  pub data Step : Type 0 where
    start : String → String → Step
    confirm : String → Step

  unfoldable pub run : List Step → Desk O → Desk O
  run [] d = d
  run (start address email ∷ rest) d = run rest (rotate_key_start O address email d).1
  run (confirm token ∷ rest) d = run rest (rotate_key_confirm O token d).1
