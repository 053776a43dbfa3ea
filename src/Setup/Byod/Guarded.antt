-- ===== src/Setup/Byod/Guarded.antt =====
-- __init__.py, the setup of an address of the operator's domain: what it leaves in the files.
use aap_hermes.Prelude.{
  String, ◌≡◌, ◌≢◌, refl, ◌∙◌, ap, sym, arith, Bool, true, false, ◌||◌, ◌==◌, ==_iff, Option, none,
  some, if◌then◌else◌, inl, inr, ◌⊎◌, if_elim, subst,
}
use aap_hermes.Prelude.Text.{is_empty, strip}
use aap_hermes.Prelude.Dict.{insert}
use aap_hermes.Setup.Desk.{
  Outside, Identity, IdentityFile, absent, unreadable, no_object, saved, Files, Desk, Action,
  Result, ok, raised, unfinished, pure, raise, ask_yes_no, ◌>>=◌, ◌>>◌, save_env_value,
  write_identity,
}
use aap_hermes.Setup.Desk.Laws.{Keeps, bind_elim, ask-Keeps, ask_yes_no-Keeps}
use aap_hermes.Setup.Desk.Outcomes.{ask-eq-ok, ask_yes_no-eq-ok, outside-ask_yes_no}
use aap_hermes.Setup.Claim.{Keys, generate_keys, identity_of, address_of}
use aap_hermes.Setup.Claim.Calm.{generate_keys-Keeps}
use aap_hermes.Setup.Hosted.{hosted_domain}
use aap_hermes.Setup.Byod.{
  Relay, Existing, save_settings, by_existing, write_new, save_identity, with_relay, with_localpart,
  with_domain, setup_byod_path,
}
use aap_hermes.Setup.Claim.Generated.{
  IsGenerated, generate_keys-IsGenerated, IsIdentity, identity_of-IsIdentity,
}
use aap_hermes.Setup.Byod.Chosen.{Said, IsChosen, ask_choice-eq-ok, pick_relay-IsChosen}
use aap_hermes.Setup.Byod.Quiet.{ask_choice-Keeps, claim_domain-Keeps, pick_relay-Keeps}

module _ (O : Outside) (lower : String → String) where
  abbrev pub own_settings : String → String → Relay → Files → Files
  own_settings domain localpart r f = record f {
    env = insert "AAP_LOCALPART" localpart (
        insert "AAP_TRUST_LIST_PUBLIC_KEY_B64" r.trust_root (
          insert "AAP_VERIFIER_URL" r.verifier_url
            (insert "AAP_RELAY_URL" r.relay_url (insert "AAP_INSTANCE_DOMAIN" domain f.env))));
  }

  -- The last thing that happened is that the operator was asked and agreed to the overwriting.
  abbrev pub IsAllowed : O.State → Type 0
  IsAllowed last =
      (s : O.State) × ((O.prompt_yes_no "Overwrite with new keypair?" false s).0 ≡ some true)
      × (last ≡ (O.prompt_yes_no "Overwrite with new keypair?" false s).1)

  -- The identity file is the same, or holds a newly drawn key pair for the address; and an identity
  -- for this address was only overwritten with leave.
  abbrev pub IsReplaced : String → String → IdentityFile → IdentityFile → O.State → Type 0
  IsReplaced localpart domain old new last =
      (new ≡ old)
      ⊎ ((k : Keys) × (i : Identity) × (IsGenerated O k)
          × (IsIdentity k localpart domain i)
          × (new ≡ saved i)
          × ((j : Identity)
              → old ≡ saved j
              → j.address ≡ address_of localpart domain
              → IsAllowed last))

  -- The answers of the operator: the domain, the localpart and the relay.
  pub record IsAnswered (domain localpart : String) (relay : Relay) : Type 0 where
    pub domain_typed : String
    pub domain_said : Said O "Your domain (e.g. example.com)" domain_typed
    pub domain_taken : domain ≡ lower (strip domain_typed)
    pub foreign : domain ≢ hosted_domain
    pub localpart_typed : String
    pub localpart_said :
        Said O "AAP localpart (e.g. yourname-bot) — the part before ^ in your AAP address"
          localpart_typed
    pub localpart_taken : localpart ≡ strip localpart_typed
    pub chosen : IsChosen O relay

  pub record IsConfigured (f : Files) (x : Desk O) : Type 0 where
    pub domain : String
    pub localpart : String
    pub relay : Relay
    pub answers : IsAnswered domain localpart relay
    pub settings : x.files.env ≡ (own_settings domain localpart relay f).env
    pub replaced : IsReplaced localpart domain f.identity x.files.identity x.outside

  -- The files are the same, and the setup did not succeed; or the settings are saved, and it did
  -- not give up.
  abbrev pub IsByod : Files → Result Bool × Desk O → Type 0
  IsByod f x = ((x.1.files ≡ f) × (x.0 ≢ ok true)) ⊎ ((x.0 ≢ ok false) × IsConfigured f x.1)

  bind-IsByod :
      {A : Type 0} (f : Files) (m : Action O A) (k : A → Action O Bool) (d : Desk O)
      → Keeps m
      → d.files ≡ f
      → ((a : A) → (m d).0 ≡ ok a → (m d).1.files ≡ f → IsByod f (k a (m d).1))
      → IsByod f ((m >>= k) d)
  bind-IsByod f m k d keeps same then_k =
      bind_elim (IsByod f) m k d (λ a e. then_k a e (keeps.same d ∙ same))
        (λ e. inl (keeps.same d ∙ same, λ h. absurd (ground (arith, h))))
        (λ e. inl (keeps.same d ∙ same, λ h. absurd (ground (arith, h))))

  refused-IsByod : (f : Files) (d : Desk O) → d.files ≡ f → IsByod f (pure false d)
  unfolding pure
  refused-IsByod f d same = inl (same, λ e. absurd (ground (arith, e)))

  if-IsByod :
      (f : Files) (b : Bool) (m n : Action O Bool) (d : Desk O)
      → (b ≡ true → IsByod f (m d))
      → (b ≡ false → IsByod f (n d))
      → IsByod f ((if b then m else n) d)
  if-IsByod f true m n d p q = p refl
  if-IsByod f false m n d p q = q refl

  module _ (localpart domain : String) where
    abbrev address : String
    address = address_of localpart domain

    -- What `by_existing` does with the file of the identity that it is given.
    abbrev IsSaved : Files → Result Bool × Desk O → Type 0
    IsSaved f x =
        (x.0 ≢ ok false)
        × (x.1.files.env ≡ f.env)
        × IsReplaced localpart domain f.identity x.1.files.identity x.1.outside

    write_new-IsSaved :
        (k : Keys) (f : Files) (d : Desk O)
        → IsGenerated O k
        → d.files ≡ f
        → ((i : Identity) → f.identity ≡ saved i → i.address ≡ address → IsAllowed d.outside)
        → IsSaved f (write_new O address k d)
    unfolding write_new ◌>>◌ ◌>>=◌ write_identity pure
    write_new-IsSaved k f d fresh same allowed = (
      (λ h. absurd (ground (arith, h))),
      ap (λ g. g.env) same,
      inr (
        k,
        identity_of k address,
        fresh,
        identity_of-IsIdentity k localpart domain,
        refl,
        allowed,
      ),
    )

    kept-IsSaved :
        (f : Files) (x : Result Bool × Desk O) → x.1.files ≡ f → x.0 ≢ ok false → IsSaved f x
    kept-IsSaved f x same other = (other, ap (λ g. g.env) same, inl (ap (λ g. g.identity) same))

    answered-IsSaved :
        (k : Keys) (f : Files) (b : Bool) (d : Desk O)
        → IsGenerated O k
        → d.files ≡ f
        → (b ≡ true → IsAllowed d.outside)
        → IsSaved f ((if b then write_new O address k else pure true) d)
    unfolding pure
    answered-IsSaved k f true d fresh same leave =
        write_new-IsSaved k f d fresh same (λ i held same_address. leave refl)
    answered-IsSaved k f false d fresh same leave =
        kept-IsSaved f (ok true, d) same (λ h. absurd (ground (arith, h)))

    overwritten-IsSaved :
        (k : Keys) (d : Desk O)
        → IsGenerated O k
        → IsSaved d.files (
            (ask_yes_no "Overwrite with new keypair?" false >>= λ overwrite.
            if overwrite then write_new O address k else pure true)
              d)
    overwritten-IsSaved k d fresh =
        let keeps = ask_yes_no-Keeps "Overwrite with new keypair?" false in
        let asked : Desk O = (ask_yes_no "Overwrite with new keypair?" false d).1 in
        bind_elim (IsSaved d.files) _ _ d
          (λ b e. answered-IsSaved k d.files b _ fresh (keeps.same d) (λ leave. (
            d.outside,
            ask_yes_no-eq-ok _ false b d e ∙ ap some leave,
            outside-ask_yes_no _ false d,
          )))
          (λ e.
            kept-IsSaved d.files (raised, asked) (keeps.same d) (λ h. absurd (ground (arith, h))))
          (λ e.
            kept-IsSaved d.files (unfinished, asked) (keeps.same d)
              (λ h. absurd (ground (arith, h))))

    other_address :
        (i j : Identity) (last : O.State)
        → (i.address == address) ≡ false
        → saved i ≡ saved j
        → j.address ≡ address
        → IsAllowed last
    other_address i j last other held same =
        absurd (ground (arith, held, same, ==_iff i.address address))

    by_existing-IsSaved :
        (k : Keys) (file : IdentityFile) (d : Desk O)
        → IsGenerated O k
        → d.files.identity ≡ file
        → IsSaved d.files (by_existing O address k file d)
    unfolding by_existing raise
    by_existing-IsSaved k absent d fresh held =
        write_new-IsSaved k d.files d fresh refl (λ i h a. absurd (ground (arith, held, h)))
    by_existing-IsSaved k unreadable d fresh held =
        write_new-IsSaved k d.files d fresh refl (λ i h a. absurd (ground (arith, held, h)))
    by_existing-IsSaved k no_object d fresh held =
        kept-IsSaved d.files (raised, d) refl (λ h. absurd (ground (arith, h)))
    by_existing-IsSaved k (saved i) d fresh held =
        if_elim (λ (m : Action O Bool). IsSaved d.files (m d)) (i.address == address) _ _
          (λ same. overwritten-IsSaved k d fresh)
          (λ other.
            write_new-IsSaved k d.files d fresh refl
              (λ j h a. other_address i j d.outside other (sym held ∙ h) a))

    save_identity-IsSaved : (d : Desk O) → IsSaved d.files (save_identity O address d)
    unfolding save_identity
    save_identity-IsSaved d =
        let same = (generate_keys-Keeps {O = O}).same d in
        bind_elim (IsSaved d.files) _ _ d
          (λ k e.
            subst
              (λ f. IsSaved f (
                by_existing O address k (generate_keys O d).1.files.identity (generate_keys O d).1))
              same
              (by_existing-IsSaved k _ (generate_keys O d).1 (generate_keys-IsGenerated O k d e)
                refl))
          (λ e.
            kept-IsSaved d.files (raised, (generate_keys O d).1) same
              (λ h. absurd (ground (arith, h))))
          (λ e.
            kept-IsSaved d.files (unfinished, (generate_keys O d).1) same
              (λ h. absurd (ground (arith, h))))

  configured-IsByod :
      (domain localpart : String) (r : Relay) (f : Files) (d : Desk O)
      → IsAnswered domain localpart r
      → d.files ≡ f
      → IsByod f
          ((save_settings O domain localpart r >> save_identity O (address_of localpart domain)) d)
  unfolding save_settings ◌>>◌ ◌>>=◌ save_env_value
  configured-IsByod domain localpart r f d answers same =
      let after : Desk O = record d { files = own_settings domain localpart r d.files } in
      let (other, env, replaced) = save_identity-IsSaved localpart domain after in
      let left = save_identity O (address_of localpart domain) after in
      inr (
        other,
        record {
          domain = domain;
          localpart = localpart;
          relay = r;
          answers = answers;
          settings = env ∙ ap (λ g. (own_settings domain localpart r g).env) same;
          replaced =
              subst
                (λ g. IsReplaced localpart domain g.identity left.1.files.identity left.1.outside)
                same replaced;
        },
      )

  foreign_lem :
      (domain : String)
      → (is_empty domain || (domain == hosted_domain)) ≡ false
      → domain ≢ hosted_domain
  foreign_lem domain h same = absurd (ground (arith, h, (==_iff domain hosted_domain).1 same))

  with_relay-IsByod :
      (domain localpart : String) (o : Option Relay) (f : Files) (d : Desk O)
      → ((r : Relay) → o ≡ some r → IsAnswered domain localpart r)
      → d.files ≡ f
      → IsByod f (with_relay O domain localpart o d)
  unfolding with_relay
  with_relay-IsByod domain localpart none f d answers same = refused-IsByod f d same
  with_relay-IsByod domain localpart (some r) f d answers same =
      bind-IsByod f _ _ d (claim_domain-Keeps r.relay_url domain) same λ go_on claimed kept.
        if-IsByod f go_on _ _ _
          (λ yes_go. configured-IsByod domain localpart r f _ (answers r refl) kept)
          (λ no_stop. refused-IsByod f _ kept)

  -- The setup of an address of the operator's own domain either leaves the files as they are and
  -- does not succeed, or it does not give up: it has then saved the domain and the localpart that
  -- the operator typed, of which the domain is not the hosted one, with the settings of the relay
  -- that the operator chose, the public one or the one that the operator named; and `aap.json` is
  -- the old one or holds a key pair that was newly drawn, with this address. An identity that was
  -- there for this very address is only overwritten if the operator agreed when asked last.
  pub setup_byod_path-IsByod :
      (e : Existing) (d : Desk O) → IsByod d.files (setup_byod_path O lower e d)
  unfolding setup_byod_path with_domain with_localpart
  setup_byod_path-IsByod e d = bind-IsByod d.files _ _ d (ask-Keeps _ _) refl λ answer said kept1.
      if-IsByod d.files (is_empty (lower (strip answer)) || (lower (strip answer) == hosted_domain))
        _ _ _ (λ bad. refused-IsByod d.files _ kept1)
        (λ good. bind-IsByod d.files _ _ _ (ask-Keeps _ _) kept1 λ local said' kept2.
          if-IsByod d.files (is_empty (strip local)) _ _ _ (λ bad. refused-IsByod d.files _ kept2)
            (λ filled. bind-IsByod d.files _ _ _ (ask_choice-Keeps _ _) kept2 λ choice took kept3.
              bind-IsByod d.files _ _ _ (pick_relay-Keeps e (lower (strip answer)) choice) kept3
                λ relay picked kept4.
                  with_relay-IsByod (lower (strip answer)) (strip local) relay d.files _
                    (λ r e_r. record {
                      domain_typed = answer;
                      domain_said = (_, _, ask-eq-ok _ _ answer _ said);
                      domain_taken = refl;
                      foreign = foreign_lem (lower (strip answer)) good;
                      localpart_typed = local;
                      localpart_said = (_, _, ask-eq-ok _ _ local _ said');
                      localpart_taken = refl;
                      chosen =
                          pick_relay-IsChosen O e (lower (strip answer)) r choice _
                            (ask_choice-eq-ok O _ choice _ took) (picked ∙ ap ok e_r);
                    })
                    kept4))
