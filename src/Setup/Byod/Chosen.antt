-- ===== src/Setup/Byod/Chosen.antt =====
-- __init__.py, the setup of an address of the operator's domain: what the operator answered.
use aap_hermes.Prelude.{
  ℕ, String, ◌≡◌, ◌≢◌, refl, ◌∙◌, subst, arith, Bool, true, false, some, if◌then◌else◌, ◌⊎◌, inl,
  inr, Bool-cases,
}
use aap_hermes.Prelude.Text.{is_empty, strip, code_eq}
use aap_hermes.Setup.Desk.{Outside, Desk, Action, ok, rstrip_slash}
use aap_hermes.Setup.Desk.Laws.{code_eq-eq}
use aap_hermes.Setup.Desk.Outcomes.{bind-eq-ok, lift-eq-ok, pure-eq-ok, or_raise-eq-ok, ask-eq-ok}
use aap_hermes.Setup.Hosted.{hosted_relay_url, hosted_verifier_url, hosted_trust_list_public_key}
use aap_hermes.Setup.Byod.{Relay, Existing, ask_choice, own_relay, pick_relay}

module _ (O : Outside) where
  -- The operator answered the question so.
  abbrev pub Said : String → String → Type 0
  Said question a = (def : String) × (s : O.State) × ((O.prompt question def s).0 ≡ some a)

  -- The operator took this option for the relay.
  abbrev pub Took : ℕ → Type 0
  Took n = (def : ℕ) × (s : O.State) × ((O.prompt_choice "Relay" def s).0 ≡ some n)

  -- The relay, the verifier and the key that the operator named; a verifier that is left out is the
  -- hosted one.
  pub record IsOwn (r : Relay) : Type 0 where
    pub relay : String
    pub verifier : String
    pub root : String
    pub relay_said : Said "Relay URL" relay
    pub verifier_said : Said "Verifier URL (used by /aap verify commands)" verifier
    pub root_said : Said "Trust-list public key for your relay (advanced)" root
    pub relay_url : r.relay_url ≡ rstrip_slash (strip relay)
    pub verifier_url : r.verifier_url ≡ (
        if is_empty (rstrip_slash (strip verifier))
        then hosted_verifier_url
        else rstrip_slash (strip verifier))
    pub trust_root : r.trust_root ≡ strip root
    pub some_relay : is_empty (rstrip_slash (strip relay)) ≡ false
    pub some_root : is_empty (strip root) ≡ false

  -- The public relay.
  pub record IsPublic (r : Relay) : Type 0 where
    pub relay_url : r.relay_url ≡ hosted_relay_url
    pub verifier_url : r.verifier_url ≡ hosted_verifier_url
    pub trust_root : r.trust_root ≡ hosted_trust_list_public_key

  -- The second option is a relay of one's own.
  abbrev pub IsChosen : Relay → Type 0
  IsChosen r = (n : ℕ) × (Took n) × (((n ≡ 1) × IsOwn r) ⊎ ((n ≢ 1) × IsPublic r))

  pub ask_choice-eq-ok : (def n : ℕ) (d : Desk O) → (ask_choice O "Relay" def d).0 ≡ ok n → Took n
  unfolding ask_choice
  ask_choice-eq-ok def n d h =
      let (o, answered_so, h1) = bind-eq-ok _ _ d n h in
      (def, d.outside, lift-eq-ok _ d o answered_so ∙ or_raise-eq-ok o _ n h1)

  if-eq-ok :
      {A : Type 0} (b : Bool) (m n : Action O A) (d : Desk O) (a : A)
      → ((if b then m else n) d).0 ≡ ok a
      → ((b ≡ true) × ((m d).0 ≡ ok a)) ⊎ ((b ≡ false) × ((n d).0 ≡ ok a))
  if-eq-ok true m n d a h = inl (refl, h)
  if-eq-ok false m n d a h = inr (refl, h)

  module _ (e : Existing) (domain : String) (r : Relay) where
    own_relay-IsOwn : (d : Desk O) → (own_relay O e domain d).0 ≡ ok (some r) → IsOwn r
    unfolding own_relay
    own_relay-IsOwn d h =
        let (relay, said, h1) = bind-eq-ok _ _ d (some r) h in
        elim (if-eq-ok (is_empty (rstrip_slash (strip relay))) _ _ _ (some r) h1) [
          | inl (empty, h2) ↦ absurd (ground (arith, pure-eq-ok _ (some r) _ h2))
          | inr (filled, h2) ↦
              let (verifier, said', h3) = bind-eq-ok _ _ _ (some r) h2 in
              let (root, said'', h4) = bind-eq-ok _ _ _ (some r) h3 in
              let same = pure-eq-ok _ (some r) _ h4 in
              elim (Bool-cases (is_empty (strip root))) [
                | inl empty ↦ absurd (ground (arith, same, empty))
                | inr full ↦ record {
                  relay = relay;
                  verifier = verifier;
                  root = root;
                  relay_said = (_, d.outside, ask-eq-ok _ _ relay d said);
                  verifier_said = (_, _, ask-eq-ok _ _ verifier _ said');
                  root_said = (_, _, ask-eq-ok _ _ root _ said'');
                  relay_url = ground (arith, same, full);
                  verifier_url = ground (arith, same, full);
                  trust_root = ground (arith, same, full);
                  some_relay = filled;
                  some_root = full;
                }
              ]
        ]

    pub pick_relay-IsChosen :
        (n : ℕ) (d : Desk O) → Took n → (pick_relay O e domain n d).0 ≡ ok (some r) → IsChosen r
    unfolding pick_relay
    pick_relay-IsChosen n d took h = elim (if-eq-ok (code_eq n 1) _ _ d (some r) h) [
      | inl (one, h1) ↦ (n, took, inl (code_eq-eq n 1 one, own_relay-IsOwn d h1))
      | inr (other, h1) ↦
          let same = pure-eq-ok _ (some r) d h1 in
          (
            n,
            took,
            inr (
              (λ e. absurd (ground (arith, subst (λ m. code_eq m 1 ≡ false) e other))),
              record {
                relay_url = ground (arith, same);
                verifier_url = ground (arith, same);
                trust_root = ground (arith, same);
              },
            ),
          )
    ]
