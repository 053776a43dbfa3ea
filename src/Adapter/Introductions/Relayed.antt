-- ===== src/Adapter/Introductions/Relayed.antt =====
-- adapter.py, `_handle_discovery_introduction_request`: who can put a question to the user.
use aap_hermes.Prelude.{
  String, ◌≡◌, refl, subst, true, Option, none, some, List, [], ◌∷◌, arith, ◌==◌, ◌&&◌, ==_iff,
  if◌then◌else◌, Option-cases, inl, inr, ◌⊎◌, >>=-eq-some,
}
use aap_hermes.Prelude.Text.{starts_with, from, drop_text}
use aap_hermes.Prelude.Dict.{Dict, contains}
use aap_hermes.Contacts.{Contact}
use aap_hermes.Adapter.Stores.{Notice, inbound_notice}
use aap_hermes.Adapter.Identities.{is_yes, guard}
use aap_hermes.Adapter.Inbound.{Envelope, Directory}
use aap_hermes.Adapter.Introductions.{
  Introduction, IntroductionStore, IsIntroductionStore, IntroductionRequest, Sdk,
  verifier_public_keys, vouching_verifier, searcher_of, handle_discovery_introduction_request,
}
use aap_hermes.Adapter.Introductions.Prompt.{render_introduction_prompt}

module _ (sdk : Sdk) (dir : Directory) (envelope : Envelope) where
  -- The envelope comes from the relay of a trusted verifier and is signed under its published key.
  pub record IsRelayed (domain : String) : Type 0 where
    pub domains : List String
    pub key : String
    pub trusted : dir.trust_list ≡ some domains
    pub listed : contains domains domain ≡ true
    pub relayed : envelope.iss ≡ sdk.verifier_relay_address domain
    pub published : dir.verifier_key domain ≡ some (some key)
    pub signed : sdk.verify envelope key ≡ some true

  vouching_verifier-IsRelayed :
      (domain : String) (keys : Dict String)
      → vouching_verifier sdk dir envelope ≡ some (domain, keys)
      → IsRelayed domain
  unfolding vouching_verifier
  vouching_verifier-IsRelayed domain keys h =
      let here = drop_text 1 (from b'^' envelope.iss) in
      let (domains, trusted, h) =
        >>=-eq-some (guard (starts_with envelope.iss "verifier^") dir.trust_list) _ (domain, keys)
          h in
      let (known, listed, h) =
        >>=-eq-some
          (guard (contains domains here && envelope.iss == sdk.verifier_relay_address here)
            (dir.verifier_key here))
          _ (domain, keys) h in
      let (key, published, h) = >>=-eq-some known _ (domain, keys) h in
      let (all, signed, h) =
        >>=-eq-some (guard (is_yes (sdk.verify envelope key)) (verifier_public_keys dir domains)) _
          (domain, keys) h in
      let same : here ≡ domain = ground (arith, h) in
      record {
        domains = domains;
        key = key;
        trusted = ground (arith, trusted);
        listed = subst (λ d. contains domains d ≡ true) same (ground (arith, listed));
        relayed =
            subst (λ d. envelope.iss ≡ sdk.verifier_relay_address d) same
              (ground (arith, listed, ==_iff envelope.iss (sdk.verifier_relay_address here)));
        published =
            subst (λ d. dir.verifier_key d ≡ some (some key)) same
              (ground (arith, listed, published));
        signed = ground (arith, signed);
      }

  module _ (I : IntroductionStore) (L : IsIntroductionStore I) (lower repr : String → String) where
    -- The introduction that a request leaves.
    abbrev pub row_of : String → IntroductionRequest → Introduction
    row_of domain intro = record {
      verifier_nonce = intro.verifier_nonce;
      verifier_domain = domain;
      searcher = intro.searcher;
      searcher_label = intro.searcher_label_for_recipient;
      expires_at = intro.expires_at;
    }

    -- A request for an introduction either changes nothing and asks nothing, or it comes from the
    -- relay of a trusted verifier, is signed under the key that this publishes, and leaves one
    -- question to the user and, under its nonce, the introduction that names that verifier; the
    -- other introductions stay as they are.
    pub introduction-IsRelayed :
        (contacts : Option (List Contact)) (request : Option IntroductionRequest) (s : I.State)
        → ((handle_discovery_introduction_request sdk dir I lower repr contacts envelope request s)
            ≡ (s, []))
          ⊎ ((domain : String) × (intro : IntroductionRequest) × (notice : Notice) × (request
                ≡ some intro)
              × IsRelayed domain
              × ((handle_discovery_introduction_request sdk dir I lower repr contacts envelope
                    request s).1
                  ≡ notice ∷ [])
              × ((k : String)
                  → I.get k
                      (handle_discovery_introduction_request sdk dir I lower repr contacts envelope
                        request s).0
                    ≡ (if intro.verifier_nonce == k
                        then some (row_of domain intro)
                        else I.get k s)))
    unfolding handle_discovery_introduction_request
    introduction-IsRelayed contacts none s = inl refl
    introduction-IsRelayed none (some intro) s =
        elim (Option-cases (vouching_verifier sdk dir envelope)) [
          | inl unvouched ↦ inl (ground (arith, unvouched))
          | inr ((domain, keys), vouched) ↦ inl (ground (arith, vouched))
        ]
    introduction-IsRelayed (some known) (some intro) s =
        elim (Option-cases (vouching_verifier sdk dir envelope)) [
          | inl unvouched ↦ inl (ground (arith, unvouched))
          | inr ((domain, keys), vouched) ↦ inr (
            domain,
            intro,
            inbound_notice intro.searcher (
                render_introduction_prompt lower repr known
                  (searcher_of sdk dir intro (domain, keys))),
            refl,
            vouching_verifier-IsRelayed domain keys vouched,
            ground (arith, vouched),
            λ k. ground (arith, vouched, L.get-add (row_of domain intro) s k),
          )
        ]
