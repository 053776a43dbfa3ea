-- ===== src/Setup/Byod/Quiet.antt =====
-- __init__.py, the setup of an address of the operator's domain: the steps before it is saved leave
-- the files alone.
use aap_hermes.Prelude.{ℕ, String, true, false, not}
use aap_hermes.Prelude.Text.{is_empty, strip, code_eq}
use aap_hermes.Setup.Desk.{Outside, Reply, unreachable, answered, rstrip_slash}
use aap_hermes.Setup.Desk.Laws.{
  Keeps, bind-Keeps, lift-Keeps, pure-Keeps, raise-Keeps, or_raise-Keeps, if-Keeps, ask-Keeps,
  ask_yes_no-Keeps,
}
use aap_hermes.Setup.Byod.{
  Existing, ask_choice, claim_token, confirm_domain, domain_started, run_domain_claim_flow,
  own_relay, pick_relay, claim_domain,
}

module _ {O : Outside} where
  pub ask_choice-Keeps : (question : String) (def : ℕ) → Keeps (ask_choice O question def)
  unfolding ask_choice
  ask_choice-Keeps question def = bind-Keeps _ _ (lift-Keeps _) or_raise-Keeps

  confirm_domain-Keeps : (url domain : String) → Keeps (confirm_domain O url domain)
  unfolding confirm_domain
  confirm_domain-Keeps url domain = bind-Keeps _ _ (ask-Keeps _ _) λ pressed.
      bind-Keeps _ _ (ask-Keeps _ _) λ answer.
        if-Keeps (is_empty (strip answer)) _ _ (pure-Keeps _)
          (bind-Keeps _ _ (lift-Keeps _) λ reply. pure-Keeps _)

  domain_started-Keeps : (url domain : String) (r : Reply) → Keeps (domain_started O url domain r)
  unfolding domain_started
  domain_started-Keeps url domain unreachable = pure-Keeps _
  domain_started-Keeps url domain (answered status text) =
      if-Keeps (code_eq status 409) _ _ (pure-Keeps _) (
        if-Keeps (not (code_eq status 200)) _ _ (pure-Keeps _) (
          if-Keeps (not (O.is_object text)) _ _ raise-Keeps (
            if-Keeps (is_empty (claim_token O text)) _ _ (pure-Keeps _)
              (confirm_domain-Keeps url domain))))

  claim_flow-Keeps : (url domain : String) → Keeps (run_domain_claim_flow O url domain)
  unfolding run_domain_claim_flow
  claim_flow-Keeps url domain = bind-Keeps _ _ (ask-Keeps _ _) λ answer.
      if-Keeps (is_empty (strip answer)) _ _ (pure-Keeps _)
        (bind-Keeps _ _ (lift-Keeps _) (domain_started-Keeps url domain))

  pub claim_domain-Keeps : (url domain : String) → Keeps (claim_domain O url domain)
  unfolding claim_domain
  claim_domain-Keeps url domain = bind-Keeps _ _ (ask_yes_no-Keeps _ true) λ now.
      if-Keeps now _ _
        (bind-Keeps _ _ (claim_flow-Keeps url domain)
          λ claimed. if-Keeps claimed _ _ (pure-Keeps _) (ask_yes_no-Keeps _ false))
        (pure-Keeps _)

  own_relay-Keeps : (e : Existing) (domain : String) → Keeps (own_relay O e domain)
  unfolding own_relay
  own_relay-Keeps e domain = bind-Keeps _ _ (ask-Keeps _ _) λ relay.
      if-Keeps (is_empty (rstrip_slash (strip relay))) _ _ (pure-Keeps _) (
        bind-Keeps _ _ (ask-Keeps _ _)
          λ verifier. bind-Keeps _ _ (ask-Keeps _ _) λ root. pure-Keeps _)

  pub pick_relay-Keeps : (e : Existing) (domain : String) (n : ℕ) → Keeps (pick_relay O e domain n)
  unfolding pick_relay
  pick_relay-Keeps e domain n = if-Keeps (code_eq n 1) _ _ (own_relay-Keeps e domain) (pure-Keeps _)
