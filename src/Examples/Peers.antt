-- ===== src/Examples/Peers.antt =====
-- A proposal to James that he accepts, and its end.
use aap_hermes.Prelude.{
  map, false, String, ◌≡◌, refl, true, none, some, List, [], ◌∷◌, ◌==◌, if◌then◌else◌,
}
use aap_hermes.TurnContext.{outside}
use aap_hermes.Adapter.Stores.{Relationship, RelationshipStore}
use aap_hermes.Adapter.Relationships.{Self, Stores, handle_relationship_accept}
use aap_hermes.Adapter.Proposals.{RelationshipProposal, handle_relationship_proposal}
use aap_hermes.Commands.Friends.{Client, no_pending, friend_accept_cmd, friend_decline_cmd}
use aap_hermes.Commands.Friends.Retried.{friend_accept_retried}
use aap_hermes.Adapter.Noise.{ends_with}
use aap_hermes.Prelude.Text.{strip, ◌<>◌}
use aap_hermes.Tools.Address.{parse_user_address}
use aap_hermes.Tools.Relationships.{
  Terms, Draft, pending_approval, terms_refusal, aap_propose_relationship,
}
use aap_hermes.Tools.Relationships.Handshake.{both_establish}
use aap_hermes.Tools.Relationships.Revoked
use aap_hermes.Examples.Stores.{peer_list, proposal_map, proposal_map-IsProposalStore}
use aap_hermes.Examples.World.{james, me, addresses, repr}
use aap_hermes.Examples.Keys.{attestations}

abbrev us : Self
us = record { address = me; public_key = "k" }

abbrev him : Self
him = record { address = james; public_key = "j" }

abbrev reachable : Client
reachable = record { reaches = λ p. true; resolve_peer = λ p. some "k" }

abbrev terms : Terms
terms = record { peer_address = james; relationship_type = "friend"; resource = none }

abbrev draft : Terms → Draft
draft t = record { nonce = "p1"; json = "proposal" }

abbrev proposal : RelationshipProposal
proposal = record {
  nonce = "p1";
  relationship_type = "friend";
  resource = none;
  identity_attestations = [];
}

-- no proposal is pending
abbrev none_pending : proposal_map.State
none_pending = (λ nonce. none, [])

is_pending :
    (aap_propose_relationship proposal_map addresses (λ p. true) outside draft terms none_pending).0
    ≡ pending_approval "p1"
unfolding aap_propose_relationship terms_refusal parse_user_address ◌==◌
is_pending = refl

is_james : parse_user_address addresses james ≡ some james
unfolding parse_user_address ends_with strip
is_james = refl

both_establish_example :
    let proposed =
      aap_propose_relationship proposal_map addresses
        (λ p. true)
        outside
        draft
        terms
        none_pending in
    let parked =
      (handle_relationship_proposal attestations proposal_map
        (λ t. t)
        repr
        (some [])
        me
        "proposal"
        (some proposal)
        none_pending).0 in
    let answered =
      friend_accept_cmd peer_list proposal_map reachable him "accept" "p1"
        (record { relationships = []; proposals = parked }) in
    let concluded =
      (handle_relationship_accept peer_list proposal_map us james "accept" "j"
        (some (record { proposal_nonce = "p1" }))
        (record { relationships = []; proposals = proposed.2 })).0 in
    (proposed.1 ≡ (james, "proposal") ∷ [])
    × (answered.1 ≡ (me, "accept") ∷ [])
    × (answered.2.relationships ≡ me ∷ [])
    × (concluded.relationships ≡ james ∷ [])
both_establish_example =
    both_establish peer_list proposal_map proposal_map-IsProposalStore addresses (λ p. true) outside
      draft terms none_pending none_pending attestations (λ t. t) repr [] reachable us him "accept"
      proposal [] (james ∷ []) [] (me ∷ []) is_pending is_james refl refl refl refl

-- James's stores, once the proposal is parked
abbrev parked : Stores peer_list proposal_map
parked = record {
  relationships = [];
  proposals = (
    (λ nonce. none),
    (
      "p1",
      record {
        peer_address = me;
        relationship_type = "friend";
        resource = none;
        proposal_envelope_json = "proposal";
      },
    )
        ∷ [],
  );
}

-- a relay that cannot be reached
abbrev offline : Client
offline = record { reaches = λ p. false; resolve_peer = λ p. some "k" }

friend_accept_retried_example :
    let first = (friend_accept_cmd peer_list proposal_map offline him "accept" "p1" parked).2 in
    let again = friend_accept_cmd peer_list proposal_map reachable him "accept" "p1" first in
    let refusal = friend_decline_cmd peer_list proposal_map reachable "accept" "p1" first in
    (again.0 ≡ no_pending "p1")
    × (again.1 ≡ [])
    × (again.2.relationships ≡ first.relationships)
    × (refusal.0 ≡ no_pending "p1")
    × (refusal.1 ≡ [])
friend_accept_retried_example =
    friend_accept_retried peer_list proposal_map proposal_map-IsProposalStore him "accept" "p1"
      parked offline reachable "accept"

-- A store of relationships without resources, by their types.
abbrev of_type : String → Relationship
of_type t = record { relationship_type = t; resource = none }

abbrev my_key : String
my_key = "K"

abbrev revoke_envelope : Relationship → String
revoke_envelope r = elim r.resource [ none ↦ "+" <> r.relationship_type | some x ↦ "" ]

unfoldable without_type : String → List String → List String
without_type env [] = []
without_type env (t ∷ ts) =
    let rest = without_type env ts in if env == revoke_envelope (of_type t) then rest else t ∷ rest

abbrev types_map : RelationshipStore
types_map = record {
  State = String → List String;
  any_relationship_with = λ p s. elim (s p) [ [] ↦ none | t ∷ ts ↦ some (of_type t) ];
  all_for_peer = λ p s. map of_type (s p);
  establish = λ me_ peer proposal_json accept proposer_key accepter_key s. some s;
  revoke = λ me_ peer env key s. ((λ k. if peer == k then without_type env (s k) else s k), true);
}

-- James is a friend and an admin, and Eve a friend
abbrev befriended : String → List String
befriended p = if p == james then "friend" ∷ "admin" ∷ [] else "friend" ∷ []
