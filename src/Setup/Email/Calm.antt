-- ===== src/Setup/Email/Calm.antt =====
-- __init__.py, `_drive_email_verification`: it ends, and leaves the files alone.
use aap_hermes.Prelude.{String, none}
use aap_hermes.Prelude.Text.{is_empty, strip}
use aap_hermes.Setup.Desk.{Outside, IsOutside, StartResponse}
use aap_hermes.Setup.Desk.Laws.{
  Keeps, pure-Keeps, bind-Keeps, lift-Keeps, or_none-Keeps, ask-Keeps, if-Keeps, Calm, bind-Calm,
  lift-Calm, pure-Calm, or_none-Calm, if-Calm, ask-Calm,
}
use aap_hermes.Setup.Email.{drive_email_verification, verify_with, confirm_with, body_of, flat}

module _ {O : Outside} (url subject seed public_key email : String) where
  confirm_with-Keeps :
      (key : String) (r : StartResponse)
      → Keeps (confirm_with O url subject seed public_key email key r)
  unfolding confirm_with
  confirm_with-Keeps key r = bind-Keeps _ _ (ask-Keeps _ _) λ answer.
      if-Keeps (is_empty (strip answer)) _ _ (pure-Keeps _)
        (bind-Keeps _ _ (lift-Keeps _) λ a. or_none-Keeps a _ λ json. pure-Keeps _)

  verify_with-Keeps : (key : String) → Keeps (verify_with O url subject seed public_key email key)
  unfolding verify_with
  verify_with-Keeps key = bind-Keeps _ _ (lift-Keeps _) λ nonce.
      bind-Keeps _ _ (lift-Keeps _)
        λ reply. or_none-Keeps (body_of reply) _ λ body. or_none-Keeps _ _ (confirm_with-Keeps key)

  pub drive-Keeps : Keeps (drive_email_verification O url subject seed public_key email)
  unfolding drive_email_verification
  drive-Keeps = bind-Keeps _ _ (lift-Keeps _) λ key. or_none-Keeps (flat key) _ verify_with-Keeps

  module _ (L : IsOutside O) where
    confirm_with-Calm :
        (key : String) (r : StartResponse)
        → Calm L (confirm_with O url subject seed public_key email key r)
    unfolding confirm_with
    confirm_with-Calm key r = bind-Calm L _ _ (ask-Calm L _ _) λ answer.
        if-Calm L (is_empty (strip answer)) _ _ (pure-Calm L none) (
          bind-Calm L _ _ (lift-Calm L _ (L.confirm_le _ seed))
            λ a. or_none-Calm L a _ λ json. pure-Calm L _)

    verify_with-Calm : (key : String) → Calm L (verify_with O url subject seed public_key email key)
    unfolding verify_with
    verify_with-Calm key = bind-Calm L _ _ (lift-Calm L _ L.token_urlsafe_le) λ nonce.
        bind-Calm L _ _ (lift-Calm L _ (L.post_start_le _ _ seed)) λ reply.
          or_none-Calm L (body_of reply) _ λ body. or_none-Calm L _ _ (confirm_with-Calm key)

    pub drive-Calm : Calm L (drive_email_verification O url subject seed public_key email)
    unfolding drive_email_verification
    drive-Calm =
        bind-Calm L _ _ (lift-Calm L _ (L.verifier_key_le _))
          λ key. or_none-Calm L (flat key) _ verify_with-Calm
