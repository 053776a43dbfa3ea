-- ===== src/Commands/Rotation/Started.antt =====
-- commands.py, `_rotate_key_start`: what it makes pending.
use aap_hermes.Prelude.{String, ◌≡◌, refl, subst, ◌∙◌, ap, arith, Option, none, some}
use aap_hermes.Setup.Desk.{
  Outside, StartResponse, IdentityFile, Desk, pure, write_rotation, ◌>>=◌, ◌>>◌,
}
use aap_hermes.Setup.Desk.Laws.{lift-Keeps, or_raise-Keeps}
use aap_hermes.Setup.Desk.Outcomes.{lift-eq-ok}
use aap_hermes.Setup.Email.{domain_from_url, body_of, start_response}
use aap_hermes.Commands.Rotation.{
  rotation_request, start_url, pending_of, pend, start_answered, start_with, rotate_from,
}
use aap_hermes.Commands.Rotation.Vouched.{
  IsStarted, IsVouched, bind-IsVouched, pure-IsVouched, same_files, getenv-Keeps,
}

module _ (O : Outside) where
  module _ (old : IdentityFile)
      (address email relay_url verifier_url seed public_key key : String) where
    abbrev Requested : String → String → Type 0
    Requested nonce body =
        (s : O.State) × (body_of
            (O.post_start (start_url O verifier_url)
              (rotation_request O address email public_key nonce) seed s).0
          ≡ some body)

    pend-IsVouched :
        (nonce body : String) (r : Option StartResponse) (d : Desk O)
        → IsVouched O old d.files
        → Requested nonce body
        → start_response O (domain_from_url O verifier_url) key nonce body ≡ r
        → IsVouched O old (pend O address email relay_url verifier_url seed public_key r d).1.files
    unfolding pend ◌>>◌ ◌>>=◌ pure write_rotation
    pend-IsVouched nonce body none d v posted signed = v
    pend-IsVouched nonce body (some r) d v (s, asked) signed = record {
      identity = v.identity;
      pending = λ p h.
          let made : pending_of O address email relay_url verifier_url seed public_key r ≡ p =
            ground (arith, h) in
          subst (IsStarted O) made (record {
            key = key;
            nonce = nonce;
            requested = s;
            body = body;
            response = r;
            asked = asked;
            signed = signed;
            same_otp = refl;
          });
    }

    start_answered-IsVouched :
        (nonce : String) (body : Option String) (d : Desk O)
        → IsVouched O old d.files
        → ((b : String) → body ≡ some b → Requested nonce b)
        → IsVouched O old
            (start_answered O address email relay_url verifier_url key seed public_key nonce body
              d).1.files
    unfolding start_answered
    start_answered-IsVouched nonce none d v posted = pure-IsVouched old _ d v
    start_answered-IsVouched nonce (some body) d v posted =
        pend-IsVouched nonce body _ d v (posted body refl) refl

  module _ (old : IdentityFile) (address email : String) where
    start_with-IsVouched :
        (relay_url verifier_url : String) (key : Option String) (d : Desk O)
        → IsVouched O old d.files
        → IsVouched O old (start_with O address email relay_url verifier_url key d).1.files
    unfolding start_with
    start_with-IsVouched relay_url verifier_url none d v = pure-IsVouched old _ d v
    start_with-IsVouched relay_url verifier_url (some key) d v =
        bind-IsVouched old _ _ d (lift-Keeps _) v λ pair made kept1.
          let v1 = same_files old kept1 v in
          bind-IsVouched old _ _ _ (lift-Keeps _) v1 λ nonce drawn kept2.
            let v2 = same_files old kept2 v1 in
            bind-IsVouched old _ _ _ (lift-Keeps _) v2 λ reply posted kept3.
              start_answered-IsVouched old address email relay_url verifier_url pair.0 pair.1 key
                nonce (body_of reply) _ (same_files old kept3 v2)
                (λ b e. (_, ap body_of (lift-eq-ok _ _ reply posted) ∙ e))

    pub rotate_from-IsVouched :
        (parsed : Option (String × String)) (d : Desk O)
        → IsVouched O old d.files
        → IsVouched O old (rotate_from O address email parsed d).1.files
    unfolding rotate_from
    rotate_from-IsVouched none d v = pure-IsVouched old _ d v
    rotate_from-IsVouched (some parsed) d v =
        bind-IsVouched old _ _ d (getenv-Keeps _ _) v λ relay_url read1 kept1.
          let v1 = same_files old kept1 v in
          bind-IsVouched old _ _ _ (getenv-Keeps _ _) v1 λ verifier_url read2 kept2.
            let v2 = same_files old kept2 v1 in
            bind-IsVouched old _ _ _ (lift-Keeps _) v2 λ found looked kept3.
              let v3 = same_files old kept3 v2 in
              bind-IsVouched old _ _ _ (or_raise-Keeps found) v3 λ key given kept4.
                start_with-IsVouched relay_url verifier_url key _ (same_files old kept4 v3)
