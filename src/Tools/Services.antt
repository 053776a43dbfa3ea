-- ===== src/Tools/Services.antt =====
-- tools.py: `aap_send_service_request_handler`, which asks a business for a service and records the
-- session that the answer goes back to.
pub mod Guarded
pub mod Answered
use aap_hermes.Prelude.{
  ℕ, String, Bool, true, false, not, Option, none, some, List, [], ◌∷◌, ◌++◌, ◌&&◌, ◌||◌, ◌==◌,
  ◌>>=◌, is_some, if◌then◌else◌,
}
use aap_hermes.Prelude.Text.{is_empty}
use aap_hermes.Gateway.{Platform, SessionSource, Sessions}
use aap_hermes.TurnContext.{Context}
use aap_hermes.Origins.{
  Calendar, Disk, Value, text, null, RequestOrigin, from_session_source, utcnow_iso, record_origin,
}
use aap_hermes.Adapter.Stores.{ConversationStore, RelationshipStore}
use aap_hermes.Adapter.Services.{PendingResponses, State}
use aap_hermes.Tools.Address.{Addresses, parse_user_address}

-- What a service asks of an attestation.
pub record Criteria : Type 0 where
  pub verified_by_oneof : Option (List String)
  pub max_age_days : Option ℕ

pub record ServiceDefinition : Type 0 where
  pub service_id : String
  pub verification_required : List (String × Criteria)

-- A business's catalog; `get` finds a service by its id.
pub record Catalog : Type 0 where
  pub canonical_agent_address : Option String
  pub get : String → Option ServiceDefinition

-- `catalog_cache`, if there is one; the outer `none` is an exception of its `get`.
abbrev pub Cache : Type 0
Cache = Option (String → Option (Option Catalog))

-- The functions of the `aap` package that the tool calls: whether a payload fits a service, the
-- attestation of a type that one of some verifiers signed within some days, and whether the relay
-- takes an envelope.
pub record Sdk (Request : Type 0) : Type 0 where
  pub is_valid : String → ServiceDefinition → Bool
  pub matching : String → List String → ℕ → Option String
  pub send_envelope_raw : Request → Bool

-- A signed request: what `build_service_request_envelope` is given, and the nonce that it draws.
pub record ServiceRequest : Type 0 where
  pub to : String
  pub service_id : String
  pub payload : String
  pub attestations : List String
  pub nonce : String

-- Why the tool returns `sent: False`.
pub data Refusal : Type 0 where
  invalid_address : Refusal
  relayed : String → String → Refusal
  no_cache : Refusal
  no_catalog : String → Refusal
  mismatch : String → String → Refusal
  unknown_service : String → Refusal
  invalid_payload : Refusal
  no_verifiers : String → Refusal
  missing_attestation : String → Refusal
  send_failed : Refusal

-- What the tool returns; `raised` is an exception that it does not catch.
pub data Result : Type 0 where
  delivered : String → Result
  failed : Refusal → Result
  raised : Result

-- A check that refuses, raises, or goes on with a value.
pub data Check {ℓ} (A : Type ℓ) : Type ℓ where
  pass : A → Check A
  refuse : Refusal → Check A
  raise : Check A

infixl 10 ◌>=>◌
abbrev pub ◌>=>◌ {ℓ κ} : {A : Type ℓ} {B : Type κ} → Check A → (A → Check B) → Check B
pass a >=> f = f a
refuse why >=> f = refuse why
raise >=> f = raise

unfoldable pub check_address : Addresses → String → Check String
check_address a value = elim (parse_user_address a value) [
  | none ↦ refuse invalid_address
  | some to ↦ pass to
]

-- The anti-relay check; a turn of a group may ask any business.
unfoldable pub check_originator : Context → String → Check String
check_originator c to = elim c.originating_peer [
  | none ↦ pass to
  | some originator ↦
      if originator == to || is_some c.originating_group
      then pass to
      else refuse (relayed originator to)
]

unfoldable pub check_catalog : Cache → String → Check Catalog
check_catalog none to = refuse no_cache
check_catalog (some get) to = elim (get to) [
  | none ↦ raise
  | some found ↦ elim found [ none ↦ refuse (no_catalog to) | some catalog ↦ pass catalog ]
]

is_other : Option String → String → Bool
is_other none to = false
is_other (some canonical) to = not (is_empty canonical) && not (canonical == to)

abbrev or_blank : Option String → String
or_blank none = ""
or_blank (some s) = s

unfoldable pub check_canonical : String → Catalog → Check Catalog
unfolding is_other
check_canonical to catalog =
    if is_other catalog.canonical_agent_address to
    then refuse (mismatch to (or_blank catalog.canonical_agent_address))
    else pass catalog

unfoldable pub check_service : String → Catalog → Check ServiceDefinition
check_service id catalog = elim (catalog.get id) [
  | none ↦ refuse (unknown_service id)
  | some sd ↦ pass sd
]

module _ (sdk : Sdk ServiceRequest) where
  unfoldable pub check_payload : String → ServiceDefinition → Check ServiceDefinition
  check_payload payload sd = if sdk.is_valid payload sd then pass sd else refuse invalid_payload

  -- `int(criteria.get("max_age_days", 365))`
  abbrev pub days_of : Criteria → ℕ
  days_of criteria = elim criteria.max_age_days [ none ↦ 365 | some n ↦ n ]

  abbrev pub verifiers_of : Criteria → List String
  verifiers_of criteria = elim criteria.verified_by_oneof [ none ↦ [] | some vs ↦ vs ]

  unfoldable pub attestation_for : String → ℕ → List String → Check String
  attestation_for type days [] = refuse (no_verifiers type)
  attestation_for type days (v ∷ vs) = elim (sdk.matching type (v ∷ vs) days) [
    | none ↦ refuse (missing_attestation type)
    | some attestation ↦ pass attestation
  ]

  -- One attestation for each requirement, in their order.
  unfoldable pub attestations_for : List (String × Criteria) → Check (List String)
  unfolding attestation_for
  attestations_for [] = pass []
  attestations_for ((type, criteria) ∷ rest) =
      let later = attestations_for rest in
      attestation_for type (days_of criteria) (verifiers_of criteria) >=> λ attestation.
      later >=> λ attestations. pass (attestation ∷ attestations)

  -- All the checks before the envelope is built.
  unfoldable pub checked :
      Addresses → Context → Cache → String → String → String → String → Check ServiceRequest
  unfolding check_payload attestations_for
  checked a c cache nonce value service_id payload = check_address a value >=> λ parsed.
      check_originator c parsed >=> λ to. check_catalog cache to >=> λ found.
      check_canonical to found >=> λ catalog. check_service service_id catalog >=> λ offered.
      check_payload payload offered >=> λ sd.
      attestations_for sd.verification_required >=> λ attestations. pass (record {
        to = to;
        service_id = service_id;
        payload = payload;
        attestations = attestations;
        nonce = nonce;
      })

-- `get_session_env(name) or None`
abbrev non_empty : String → Value
non_empty s = if is_empty s then null else text s

abbrev value_of : Option String → Value
value_of none = null
value_of (some s) = text s

-- The origin of a turn that has no session source of ours, from the gateway's session variables;
-- `env` is `none` if the gateway has no such module.
unfoldable pub origin_of_env :
    Calendar → ℕ → Option (String → String) → String → Option String → Option RequestOrigin
origin_of_env cal now none target group = none
origin_of_env cal now (some get) target group =
    if is_empty (get "HERMES_SESSION_PLATFORM") || is_empty (get "HERMES_SESSION_CHAT_ID")
    then none
    else some (record {
      platform = text (get "HERMES_SESSION_PLATFORM");
      chat_id = text (get "HERMES_SESSION_CHAT_ID");
      chat_type = text "dm";
      user_id = non_empty (get "HERMES_SESSION_USER_ID");
      user_name = non_empty (get "HERMES_SESSION_USER_NAME");
      thread_id = non_empty (get "HERMES_SESSION_THREAD_ID");
      chat_name = non_empty (get "HERMES_SESSION_CHAT_NAME");
      target_address = text target;
      group_conversation_id = value_of group;
      created_at = text (utcnow_iso cal now);
    })

-- `_build_request_origin`
unfoldable pub build_request_origin :
    Calendar
    → ℕ
    → Option (String → String)
    → Context
    → String
    → Option String
    → Option RequestOrigin
unfolding origin_of_env
build_request_origin cal now env c target group = elim c.session_source [
  | none ↦ origin_of_env cal now env target group
  | some source ↦ some (from_session_source cal now source target group)
]

-- `group_conversation_id or get_originating_group()`
abbrev pub group_of : Option String → Context → Option String
group_of none c = c.originating_group
group_of (some g) c = if is_empty g then c.originating_group else some g

module _ (C : ConversationStore) (R : RelationshipStore) (S : Sessions) (P : PendingResponses)
    (cal : Calendar) (ttl : ℕ) (repr : String → String) (platform_of : String → Option Platform)
    (sdk : Sdk ServiceRequest) where
  abbrev pub Desk : Type 0
  Desk = State C R S P cal ttl repr platform_of

  -- The result, the envelopes that were sent, and the state.
  abbrev pub Outcome : Type 0
  Outcome = Result × List ServiceRequest × Desk

  abbrev pub contacted : String → Desk → Desk
  contacted to s = record s { world = record s.world { contacted = s.world.contacted ++ to ∷ [] } }

  -- The record of the origin, after the send.
  unfoldable pub recorded : ℕ → Disk → Option RequestOrigin → ServiceRequest → Desk → Outcome
  recorded now disk none request s = (delivered request.nonce, request ∷ [], s)
  recorded now disk (some origin) request s =
      elim (record_origin cal ttl now disk request.nonce origin s.origins) [
        | none ↦ (raised, request ∷ [], s)
        | some (origins', fresh, logs) ↦ (
          delivered request.nonce,
          request ∷ [],
          record s { origins = origins'; journal = s.journal ++ logs },
        )
      ]

  -- From the send on.
  unfoldable pub sent :
      ℕ → ℕ → Disk → Option (String → String) → Option String → ServiceRequest → Desk → Outcome
  unfolding recorded
  sent built now disk env group request s =
      if sdk.send_envelope_raw request
      then recorded now disk
          (build_request_origin cal built env s.world.context request.to
            (group_of group s.world.context))
          request (contacted request.to s)
      else (failed send_failed, [], s)

  -- `aap_send_service_request_handler`; the nonce is the one that the envelope gets, `built` is the
  -- time at which the origin is made and `now` the one at which it is recorded.
  unfoldable pub aap_send_service_request :
      Addresses
      → Cache
      → ℕ
      → ℕ
      → Disk
      → Option (String → String)
      → String
      → String
      → String
      → String
      → Option String
      → Desk
      → Outcome
  unfolding sent
  aap_send_service_request a cache built now disk env nonce value service_id payload group s =
      elim (checked sdk a s.world.context cache nonce value service_id payload) [
        | pass request ↦ sent built now disk env group request s
        | refuse why ↦ (failed why, [], s)
        | raise ↦ (raised, [], s)
      ]
