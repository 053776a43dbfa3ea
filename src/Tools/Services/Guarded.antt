-- ===== src/Tools/Services/Guarded.antt =====
-- tools.py: which service requests are sent at all, and what a call that sends none changes.
use aap_hermes.Prelude.{
  ℕ, String, subst, ◌≡◌, ◌≢◌, refl, true, ◌⊎◌, inl, inr, Option, none, some, List, [], ◌∷◌, arith,
  ==_iff, is_some, Option-cases, Bool-cases,
}
use aap_hermes.Prelude.Text.{is_empty}
use aap_hermes.Gateway.{Platform, Sessions}
use aap_hermes.TurnContext.{Context}
use aap_hermes.Origins.{Calendar, Disk, record_origin}
use aap_hermes.Adapter.Stores.{ConversationStore, RelationshipStore}
use aap_hermes.Adapter.Services.{PendingResponses, State}
use aap_hermes.Tools.Address.{Addresses, parse_user_address}
use aap_hermes.Tools.Services.{
  Cache, Catalog, Criteria, ServiceDefinition, ServiceRequest, Sdk, Check, Refusal, Outcome, pass,
  refuse, raise, ◌>=>◌, check_address, check_originator, check_catalog, check_canonical,
  check_service, check_payload, attestation_for, is_other, attestations_for, days_of, verifiers_of,
  checked, sent, recorded, aap_send_service_request, build_request_origin, group_of,
}

>=>-eq-pass {ℓ κ} :
    {A : Type ℓ} {B : Type κ} (m : Check A) (f : A → Check B) {b : B}
    → (m >=> f) ≡ pass b
    → (a : A) × (m ≡ pass a) × (f a ≡ pass b)
>=>-eq-pass (pass a) f h = (a, refl, h)
>=>-eq-pass (refuse why) f h = cc
>=>-eq-pass raise f h = cc

Check-cases {ℓ} :
    {A : Type ℓ} (m : Check A)
    → ((a : A) × (m ≡ pass a)) ⊎ ((why : Refusal) × (m ≡ refuse why)) ⊎ (m ≡ raise)
Check-cases (pass a) = inl (a, refl)
Check-cases (refuse why) = inr (inl (why, refl))
Check-cases raise = inr (inr refl)

module _ (sdk : Sdk ServiceRequest) where
  -- Each requirement names a verifier, and has its own attestation of one of its verifiers.
  abbrev pub Attests : List (String × Criteria) → List String → Type 0
  Attests [] [] = Unit {0}
  Attests [] (x ∷ xs) = ⊥
  Attests (r ∷ rest) [] = ⊥
  Attests ((type, criteria) ∷ rest) (x ∷ xs) =
      (verifiers_of sdk criteria ≢ [])
      × (sdk.matching type (verifiers_of sdk criteria) (days_of sdk criteria) ≡ some x)
      × Attests rest xs

  attestation_for-eq-pass :
      (type : String) (days : ℕ) (vs : List String) (x : String)
      → attestation_for sdk type days vs ≡ pass x
      → (vs ≢ []) × (sdk.matching type vs days ≡ some x)
  unfolding attestation_for
  attestation_for-eq-pass type days [] x h = cc
  attestation_for-eq-pass type days (v ∷ vs) x h = (λ e. cc (e), ground arith)

  attestations_for-eq-pass :
      (reqs : List (String × Criteria)) (xs : List String)
      → attestations_for sdk reqs ≡ pass xs
      → Attests reqs xs
  unfolding attestations_for
  attestations_for-eq-pass [] [] h = tt
  attestations_for-eq-pass [] (x ∷ xs) h = cc
  attestations_for-eq-pass ((type, criteria) ∷ rest) xs h =
      let (y, first, later) =
        >=>-eq-pass (attestation_for sdk type (days_of sdk criteria) (verifiers_of sdk criteria))
          (λ y. attestations_for sdk rest >=> λ ys. pass (y ∷ ys)) h in
      let (ys, others, done) =
        >=>-eq-pass (attestations_for sdk rest) (λ ys. pass (y ∷ ys)) later in
      let here =
        attestation_for-eq-pass type (days_of sdk criteria) (verifiers_of sdk criteria) y first in
      let there = attestations_for-eq-pass rest ys others in
      let same : (y ∷ ys) ≡ xs = cc in
      subst (Attests ((type, criteria) ∷ rest)) same (here.0, here.1, there)

  -- what the cache has for an address
  abbrev pub found : Cache → String → Option (Option Catalog)
  found none to = none
  found (some get) to = get to

  -- What a request that may be sent is: its address is the one that was asked for; the turn is no
  -- peer's, or that peer's, or a group's; the catalog that the cache has for the address names no other one as
  -- canonical and offers the service; the payload fits it; and the attestations are those that the
  -- service requires.
  pub record IsAllowed (a : Addresses) (c : Context) (cache : Cache)
      (nonce value service_id payload : String) (request : ServiceRequest) : Type 0 where
    pub catalog : Catalog
    pub service : ServiceDefinition
    pub addressed : parse_user_address a value ≡ some request.to
    pub originated :
        (c.originating_peer ≡ none)
        ⊎ (c.originating_peer ≡ some request.to)
        ⊎ (is_some c.originating_group ≡ true)
    pub listed : found cache request.to ≡ some (some catalog)
    pub canonical :
        (k : String)
        → catalog.canonical_agent_address ≡ some k
        → (is_empty k ≡ true) ⊎ (k ≡ request.to)
    pub offered : catalog.get service_id ≡ some service
    pub drawn : request.nonce ≡ nonce
    pub asked : request.service_id ≡ service_id
    pub carried : request.payload ≡ payload
    pub fits : sdk.is_valid payload service ≡ true
    pub attested : Attests service.verification_required request.attestations

  check_address-eq-pass :
      (a : Addresses) (value to : String)
      → check_address a value ≡ pass to
      → parse_user_address a value ≡ some to
  unfolding check_address
  check_address-eq-pass a value to h = ground arith

  check_originator-eq-pass :
      (c : Context) (to b : String)
      → check_originator c to ≡ pass b
      → (to ≡ b)
        × ((c.originating_peer ≡ none)
            ⊎ (c.originating_peer ≡ some to)
            ⊎ (is_some c.originating_group ≡ true))
  unfolding check_originator
  check_originator-eq-pass c to b h = elim (Option-cases c.originating_peer) [
    | inl alone ↦ (ground arith, inl alone)
    | inr (p, of) ↦ elim (Bool-cases (is_some c.originating_group)) [
      | inl group ↦ (ground arith, inr (inr group))
      | inr direct ↦ (ground arith, inr (inl (ground (arith, ==_iff p to))))
    ]
  ]

  check_catalog-eq-pass :
      (cache : Cache) (to : String) (c : Catalog)
      → check_catalog cache to ≡ pass c
      → found cache to ≡ some (some c)
  unfolding check_catalog
  check_catalog-eq-pass none to c h = cc
  check_catalog-eq-pass (some get) to c h = elim (Option-cases (get to)) [
    | inl raised ↦ ground arith
    | inr (none, absent) ↦ ground arith
    | inr (some d, there) ↦ ground arith
  ]

  check_canonical-eq-pass :
      (to : String) (c d : Catalog)
      → check_canonical to c ≡ pass d
      → (c ≡ d)
        × ((k : String) → c.canonical_agent_address ≡ some k → (is_empty k ≡ true) ⊎ (k ≡ to))
  unfolding check_canonical is_other
  check_canonical-eq-pass to c d h = (ground arith, λ k named. ground (arith, named, ==_iff k to))

  check_service-eq-pass :
      (id : String) (c : Catalog) (sd : ServiceDefinition)
      → check_service id c ≡ pass sd
      → c.get id ≡ some sd
  unfolding check_service
  check_service-eq-pass id c sd h = ground arith

  check_payload-eq-pass :
      (payload : String) (d sd : ServiceDefinition)
      → check_payload sdk payload d ≡ pass sd
      → (d ≡ sd) × (sdk.is_valid payload d ≡ true)
  unfolding check_payload
  check_payload-eq-pass payload d sd h = (ground arith, ground arith)

  pub checked-eq-pass :
      (a : Addresses) (c : Context) (cache : Cache) (nonce value service_id payload : String)
      (request : ServiceRequest)
      → checked sdk a c cache nonce value service_id payload ≡ pass request
      → IsAllowed a c cache nonce value service_id payload request
  unfolding checked
  checked-eq-pass a c cache nonce value service_id payload request h =
      let (parsed, e1, h1) = >=>-eq-pass (check_address a value) _ h in
      let (to, e2, h2) = >=>-eq-pass (check_originator c parsed) _ h1 in
      let (listed, e3, h3) = >=>-eq-pass (check_catalog cache to) _ h2 in
      let (catalog, e4, h4) = >=>-eq-pass (check_canonical to listed) _ h3 in
      let (offered, e5, h5) = >=>-eq-pass (check_service service_id catalog) _ h4 in
      let (sd, e6, h6) = >=>-eq-pass (check_payload sdk payload offered) _ h5 in
      let (xs, e7, h7) = >=>-eq-pass (attestations_for sdk sd.verification_required) _ h6 in
      let who = check_originator-eq-pass c parsed to e2 in
      let what = check_canonical-eq-pass to listed catalog e4 in
      let fit = check_payload-eq-pass payload offered sd e6 in
      let made : ServiceRequest = record {
        to = to;
        service_id = service_id;
        payload = payload;
        attestations = xs;
        nonce = nonce;
      } in
      let same : made ≡ request = cc (h7) in
      subst (IsAllowed a c cache nonce value service_id payload) same (record {
        catalog = listed;
        service = sd;
        addressed = cc (check_address-eq-pass a value parsed e1, who.0);
        originated =
            subst
              (λ x.
                (c.originating_peer ≡ none)
                ⊎ (c.originating_peer ≡ some x)
                ⊎ (is_some c.originating_group ≡ true))
              who.0 who.1;
        listed = check_catalog-eq-pass cache to listed e3;
        canonical = what.1;
        offered = cc (check_service-eq-pass service_id catalog offered e5, what.0, fit.0);
        drawn = refl;
        asked = refl;
        carried = refl;
        fits = cc (fit.0, fit.1);
        attested = attestations_for-eq-pass sd.verification_required xs e7;
      })

module _ (C : ConversationStore) (R : RelationshipStore) (S : Sessions) (P : PendingResponses)
    (cal : Calendar) (ttl : ℕ) (repr : String → String) (platform_of : String → Option Platform)
    (sdk : Sdk ServiceRequest) (a : Addresses) (cache : Cache) (built now : ℕ) (disk : Disk)
    (env : Option (String → String)) (nonce value service_id payload : String)
    (group : Option String) (s : State C R S P cal ttl repr platform_of) where
  abbrev pub outcome : Outcome C R S P cal ttl repr platform_of sdk
  outcome =
      aap_send_service_request C R S P cal ttl repr platform_of sdk a cache built now disk env nonce
        value service_id payload group s

  sent_requests :
      (request other : ServiceRequest) (rest : List ServiceRequest)
      → (sent C R S P cal ttl repr platform_of sdk built now disk env group request s).1
        ≡ other ∷ rest
      → (request ≡ other) × (rest ≡ [])
  unfolding sent recorded
  sent_requests request other rest h =
      elim (Option-cases (
        build_request_origin cal built env s.world.context request.to
          (group_of group s.world.context))) [
            | inl absent ↦ (ground arith, ground arith)
            | inr (origin, there) ↦
                elim (Option-cases
                  (record_origin cal ttl now disk request.nonce origin s.origins)) [
                    | inl raised ↦ (ground arith, ground arith)
                    | inr (stored, kept) ↦ (ground arith, ground arith)
                  ]
          ]

  sent_nothing :
      (request : ServiceRequest)
      → (sent C R S P cal ttl repr platform_of sdk built now disk env group request s).1 ≡ []
      → (sent C R S P cal ttl repr platform_of sdk built now disk env group request s).2 ≡ s
  unfolding sent recorded
  sent_nothing request h =
      elim (Option-cases (
        build_request_origin cal built env s.world.context request.to
          (group_of group s.world.context))) [
            | inl absent ↦ ground arith
            | inr (origin, there) ↦
                elim (Option-cases
                  (record_origin cal ttl now disk request.nonce origin s.origins)) [
                    | inl raised ↦ ground arith
                    | inr (stored, kept) ↦ ground arith
                  ]
          ]

  -- A call of the tool sends at most one request, and only one that is allowed: to the address that
  -- was asked for, in no turn of another peer unless it is a group's, to a business whose catalog
  -- offers the service under that address, with a payload that fits it, and with an attestation for
  -- each requirement, of a verifier that the service names.
  pub outcome-IsAllowed :
      (request : ServiceRequest) (rest : List ServiceRequest)
      → outcome.1 ≡ request ∷ rest
      → IsAllowed sdk a s.world.context cache nonce value service_id payload request × (rest ≡ [])
  unfolding aap_send_service_request
  outcome-IsAllowed request rest h =
      elim (Check-cases (checked sdk a s.world.context cache nonce value service_id payload)) [
        | inl (made, passed) ↦
            let one = sent_requests made request rest (ground (arith, passed)) in
            (
              subst (IsAllowed sdk a s.world.context cache nonce value service_id payload) one.0 (
                  checked-eq-pass sdk a s.world.context cache nonce value service_id payload made
                    passed),
              one.1,
            )
        | inr (inl (why, refused)) ↦ absurd (ground (arith, refused))
        | inr (inr raised) ↦ absurd (ground (arith, raised))
      ]

  -- A call that sends no request changes nothing, whatever the reason.
  outcome_unsent : outcome.1 ≡ [] → outcome.2 ≡ s
  unfolding aap_send_service_request
  outcome_unsent h =
      elim (Check-cases (checked sdk a s.world.context cache nonce value service_id payload)) [
        | inl (made, passed) ↦ ground (arith, passed, sent_nothing made)
        | inr (inl (why, refused)) ↦ ground (arith, refused)
        | inr (inr raised) ↦ ground (arith, raised)
      ]
