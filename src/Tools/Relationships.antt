-- ===== src/Tools/Relationships.antt =====
-- tools.py: `aap_propose_relationship_handler` and `aap_revoke_relationship_handler`. commands.py:
-- `_revoke_friendship_cmd`, which is the latter without a type.
pub mod Handshake
pub mod Revoked
use aap_hermes.Prelude.{
  String, Bool, true, false, not, Option, none, some, List, [], ◌∷◌, ◌++◌, ◌&&◌, ◌||◌, ◌==◌,
  if◌then◌else◌, is_some,
}
use aap_hermes.Prelude.Text.{is_empty}
use aap_hermes.TurnContext.{Context}
use aap_hermes.Adapter.Stores.{Relationship, RelationshipStore, Proposal, ProposalStore}
use aap_hermes.Adapter.GroupNote.{is_nil}
use aap_hermes.Adapter.Relationships.{Self}
use aap_hermes.Tools.Address.{Addresses, parse_user_address}

-- Why a tool returns the status `error`.
pub data Refusal : Type 0 where
  unknown_type : String → Refusal
  missing_resource : Refusal
  invalid_address : Refusal
  other_peer : String → String → Refusal
  send_failed : Refusal
  no_relationship : String → Refusal

pub data Proposed : Type 0 where
  pending_approval : String → Proposed
  refused : Refusal → Proposed

-- What is to be proposed: to whom, and which relationship.
pub record Terms : Type 0 where
  pub peer_address : String
  pub relationship_type : String
  pub resource : Option String

-- An envelope that we have signed, with its nonce.
pub record Draft : Type 0 where
  pub nonce : String
  pub json : String

abbrev pub is_known_type : String → Bool
is_known_type t = t == "friend" || t == "admin" || t == "team"

abbrev blank : Option String → Bool
blank none = true
blank (some s) = is_empty s

unfoldable pub terms_refusal : Terms → Option Refusal
terms_refusal t =
    if not (is_known_type t.relationship_type)
    then some (unknown_type t.relationship_type)
    else if t.relationship_type == "team" && blank t.resource
    then some missing_resource
    else none

abbrev originator_refusal : Context → String → Option Refusal
originator_refusal c to = elim c.originating_peer [
  | none ↦ none
  | some originator ↦ if originator == to then none else some (other_peer originator to)
]

module _ (P : ProposalStore) where
  -- The result, the envelopes that the relay took, by their recipients, and the store.
  abbrev pub ProposeOutcome : Type 0
  ProposeOutcome = Proposed × List (String × String) × P.State

  unfoldable pub propose_to : (String → Bool) → Draft → Terms → String → P.State → ProposeOutcome
  propose_to reaches draft t to s =
      if reaches to
      then (
        pending_approval draft.nonce,
        (to, draft.json) ∷ [],
        P.record_outbound draft.nonce
            (record {
              peer_address = to;
              relationship_type = t.relationship_type;
              resource = t.resource;
              proposal_envelope_json = draft.json;
            })
            s,
      )
      else (refused send_failed, [], s)

  -- `aap_propose_relationship_handler`; `draft` is what it signs for the terms.
  unfoldable pub aap_propose_relationship :
      Addresses → (String → Bool) → Context → (Terms → Draft) → Terms → P.State → ProposeOutcome
  unfolding terms_refusal propose_to
  aap_propose_relationship a reaches c draft t s = elim (terms_refusal t) [
    | some e ↦ (refused e, [], s)
    | none ↦ elim (parse_user_address a t.peer_address) [
      | none ↦ (refused invalid_address, [], s)
      | some to ↦ elim (originator_refusal c to) [
        | some e ↦ (refused e, [], s)
        | none ↦ propose_to reaches (draft t) t to s
      ]
    ]
  ]

pub data Ended : Type 0 where
  revoked : String → List Relationship → Ended
  not_revoked : Refusal → Ended

abbrev resource_eq : Option String → Option String → Bool
resource_eq none none = true
resource_eq (some r) (some t) = r == t
resource_eq none (some t) = false
resource_eq (some r) none = false

-- `targets`: the relationships that a call asks to revoke.
unfoldable pub is_target : Option String → Option String → Relationship → Bool
is_target none resource r = true
is_target (some t) resource r =
    r.relationship_type == t && (not (t == "team") || resource_eq r.resource resource)

unfoldable pub targets : Option String → Option String → List Relationship → List Relationship
unfolding is_target
targets type resource [] = []
targets type resource (r ∷ rs) =
    let rest = targets type resource rs in if is_target type resource r then r ∷ rest else rest

abbrev type_refusal : Option String → Option Refusal
type_refusal none = none
type_refusal (some t) = if is_known_type t then none else some (unknown_type t)

module _ (R : RelationshipStore) (self public_key : String)
    (revoke_envelope : Relationship → String) where
  -- The result, the envelopes that the relay took, and the store.
  abbrev pub RevokeOutcome : Type 0
  RevokeOutcome = Ended × List (String × String) × R.State

  abbrev shipped : (String → Bool) → String → String → List (String × String)
  shipped reaches to json = if reaches to then (to, json) ∷ [] else []

  -- The loop over the targets: a send that fails does not stop the revocation.
  unfoldable pub revoke_all :
      (String → Bool) → String → List Relationship → R.State → List (String × String) × R.State
  revoke_all reaches peer [] s = ([], s)
  revoke_all reaches peer (r ∷ rs) s =
      let (sent, s') =
        revoke_all reaches peer rs (R.revoke self peer (revoke_envelope r) public_key s).0 in
      (shipped reaches peer (revoke_envelope r) ++ sent, s')

  unfoldable pub revoke_targets :
      (String → Bool) → String → List Relationship → R.State → RevokeOutcome
  unfolding revoke_all
  revoke_targets reaches peer rs s =
      if is_nil rs
      then (not_revoked (no_relationship peer), [], s)
      else let (sent, s') = revoke_all reaches peer rs s in (revoked peer rs, sent, s')

  -- `aap_revoke_relationship_handler`
  unfoldable pub aap_revoke_relationship :
      Addresses → (String → Bool) → String → Option String → Option String → R.State → RevokeOutcome
  unfolding revoke_targets targets
  aap_revoke_relationship a reaches peer_address type resource s =
      elim (parse_user_address a peer_address) [
        | none ↦ (not_revoked invalid_address, [], s)
        | some peer ↦ elim (type_refusal type) [
          | some e ↦ (not_revoked e, [], s)
          | none ↦ revoke_targets reaches peer (targets type resource (R.all_for_peer peer s)) s
        ]
      ]
