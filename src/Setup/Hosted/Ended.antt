-- ===== src/Setup/Hosted/Ended.antt =====
-- __init__.py, the setup of a hosted address: the loop ends.
use aap_hermes.Prelude.{
  ℕ, zero, suc, ◌<◌, String, ◌≡◌, ◌≢◌, arith, Bool, false, not, ◌&&◌, Option, none, some,
  Option-cases, inl, inr,
}
use aap_hermes.Prelude.Text.{is_empty, strip, code_eq}
use aap_hermes.Setup.Desk.{
  Outside, IsOutside, Desk, Reply, unreachable, answered, Result, ok, unfinished, ask, lift,
  or_raise, pure, raise, ◌>>=◌, ◌>>◌, save_env_value,
}
use aap_hermes.Setup.Desk.Laws.{
  IsCalmAt, Calm, bind_elim, bind-Calm, then-Calm, lift-Calm, pure-Calm, raise-Calm, if-Calm,
  ask-Calm, ask_yes_no-Calm, save_env_value-Calm,
}
use aap_hermes.Setup.Claim.{Op, Claim, claimed, retry, aborted}
use aap_hermes.Setup.Claim.Calm.{run_claim_flow-Calm}
use aap_hermes.Setup.Hosted.{
  Next, finished, again, Status, available, system_reserved, reserved, taken, malformed, error,
  checked, checked_body, check_localpart_availability, settled, claim_round, by_status, picked,
  is_derivative, is_unset, hosted_round, following, hosted_loop, setup_hosted_path,
}

module _ {O : Outside} (L : IsOutside O) where
  checked_body-Calm : (text : String) (b : Option Bool) → Calm L (checked_body O text b)
  unfolding checked_body
  checked_body-Calm text none = raise-Calm L
  checked_body-Calm text (some b) = pure-Calm L _

  checked-Calm : (r : Reply) → Calm L (checked O r)
  unfolding checked
  checked-Calm unreachable = pure-Calm L _
  checked-Calm (answered status text) = if-Calm L (code_eq status 400) _ _ (pure-Calm L _) (
      if-Calm L (not (code_eq status 200)) _ _ (pure-Calm L _)
        (if-Calm L (not (O.is_json text)) _ _ (pure-Calm L _) (checked_body-Calm text _)))

  settled-Calm : (localpart : String) (c : Claim) → Calm L (settled O localpart c)
  unfolding settled
  settled-Calm localpart claimed =
      then-Calm L _ _ (save_env_value-Calm L _ localpart) (pure-Calm L _)
  settled-Calm localpart retry = pure-Calm L _
  settled-Calm localpart aborted = pure-Calm L _

  claim_round-Calm : (op : Op) (localpart : String) → Calm L (claim_round O op localpart)
  unfolding claim_round
  claim_round-Calm op localpart =
      bind-Calm L _ _ (run_claim_flow-Calm L op _ _ _ localpart) (settled-Calm localpart)

  by_status-Calm :
      (localpart : String) (base : Option Bool) (s : Status) → Calm L (by_status O localpart base s)
  unfolding by_status
  by_status-Calm localpart base available =
      if-Calm L (is_derivative localpart && is_unset base) _ _ (pure-Calm L _)
        (claim_round-Calm _ localpart)
  by_status-Calm localpart base system_reserved = pure-Calm L _
  by_status-Calm localpart base reserved = claim_round-Calm _ localpart
  by_status-Calm localpart base taken =
      bind-Calm L _ _ (ask_yes_no-Calm L _ false)
        λ recover. if-Calm L recover _ _ (claim_round-Calm _ localpart) (pure-Calm L _)
  by_status-Calm localpart base malformed = pure-Calm L _
  by_status-Calm localpart base error =
      then-Calm L _ _ (save_env_value-Calm L _ localpart) (pure-Calm L _)

  picked-Calm : (localpart : String) → Calm L (picked O localpart)
  unfolding picked check_localpart_availability
  picked-Calm localpart =
      bind-Calm L _ _ (bind-Calm L _ _ (lift-Calm L _ (L.get_le _ localpart)) checked-Calm)
        λ check. by_status-Calm localpart check.base_claimed check.status

  ask-lt :
      (question def answer : String) (d : Desk O)
      → (ask question def d).0 ≡ ok answer
      → L.left (ask question def d).1.outside < L.left d.outside
  unfolding ask lift ◌>>=◌ or_raise pure raise
  ask-lt question def answer d h = elim (Option-cases (O.prompt question def d.outside).0) [
    | inl ended ↦ absurd (ground (arith, ended, h))
    | inr (a, given) ↦ ground (arith, given, L.prompt_lt question def d.outside a given)
  ]

  -- A round ends, and one that returns has used up input.
  record IsSpent (d : Desk O) (x : Result Next × Desk O) : Type 0 where
    spent : (n : Next) → x.0 ≡ ok n → L.left x.1.outside < L.left d.outside
    ends : x.0 ≢ unfinished

  left-IsSpent :
      (d e : Desk O) (x : Result Next × Desk O)
      → L.left e.outside < L.left d.outside
      → IsCalmAt L e x
      → IsSpent d x
  left-IsSpent d e x lt calm = record { spent = λ n h. ground (arith, calm.left); ends = calm.ends }

  hosted_round-IsSpent : (def : String) (d : Desk O) → IsSpent d (hosted_round O def d)
  unfolding hosted_round
  hosted_round-IsSpent def d =
      bind_elim (IsSpent d) _ _ d
        (λ localpart asked. left-IsSpent d _ _ (ask-lt _ def localpart d asked) (
          (if-Calm L (is_empty localpart) _ _ (pure-Calm L _) (picked-Calm (strip localpart))).at
            _))
        (λ e. record {
          spent = λ n h. absurd (ground (arith, h));
          ends = λ h. absurd (ground (arith, h));
        })
        (λ e. absurd (((ask-Calm L _ def).at d).ends e))

  following_ends :
      (n : ℕ)
      → ((def : String) (d : Desk O)
          → L.left d.outside < n
          → (hosted_loop O n def d).0 ≢ unfinished)
      → (w : Next) (d : Desk O) → L.left d.outside < n
      → (following O (hosted_loop O n) w d).0 ≢ unfinished
  unfolding following
  following_ends n ih (finished b) d lt = ((pure-Calm L b).at d).ends
  following_ends n ih (again def) d lt = ih def d lt

  loop_ends :
      (n : ℕ) (def : String) (d : Desk O)
      → L.left d.outside < n
      → (hosted_loop O n def d).0 ≢ unfinished
  unfolding hosted_loop
  loop_ends zero def d lt = absurd (omega arith)
  loop_ends (suc n) def d lt =
      bind_elim (λ x. x.0 ≢ unfinished) _ _ d
        (λ where_to went.
          following_ends n (loop_ends n) where_to (hosted_round O def d).1
            (let spent = (hosted_round-IsSpent def d).spent where_to went in omega arith))
        (λ e h. absurd (ground (arith, h))) (λ e. absurd ((hosted_round-IsSpent def d).ends e))

  -- The setup of a hosted address comes to an end: with more rounds than the user has input left,
  -- it is not cut short, whatever the relay and the verifier answer.
  pub setup_hosted_path_ends :
      (n : ℕ) (existing_localpart : String) (d : Desk O)
      → L.left d.outside < n
      → (setup_hosted_path O n existing_localpart d).0 ≢ unfinished
  unfolding setup_hosted_path ◌>>◌ ◌>>=◌ save_env_value
  setup_hosted_path_ends n existing_localpart d lt = loop_ends n existing_localpart _ lt
