-- ===== src/Examples/Consent.antt =====
-- A proposal to James, and answers to it.
use aap_hermes.Prelude.{◌≡◌, ◌≢◌, refl, none, some, [], arith, ◌==◌, ==_iff, if◌then◌else◌}
use aap_hermes.Adapter.Stores.{Proposal}
use aap_hermes.Adapter.Relationships.{
  RelationshipAccept, RelationshipDecline, Self, Stores, handle_relationship_accept,
}
use aap_hermes.Adapter.Relationships.Consent.{accept_after_forgery}
use aap_hermes.Examples.Stores.{peer_list, proposal_map, proposal_map-IsProposalStore}
use aap_hermes.Examples.World.{james, eve, me}

abbrev pub self : Self
self = record { address = me; public_key = "k" }

abbrev to_james : Proposal
to_james = record {
  peer_address = james;
  relationship_type = "friend";
  resource = none;
  proposal_envelope_json = "{}";
}

abbrev pub asked : Stores peer_list proposal_map
asked = record {
  relationships = [];
  proposals = (λ nonce. if nonce == "p1" then some to_james else none, []);
}

abbrev pub yes : RelationshipAccept
yes = record { proposal_nonce = "p1" }

abbrev no : RelationshipDecline
no = record { proposal_nonce = "p1"; reason = "" }

pending : asked.proposals.0 "p1" ≡ some to_james
unfolding ◌==◌
pending = refl

not_eve : james ≢ eve
unfolding ◌==◌
not_eve = λ same. ground (arith, (==_iff james eve).1 same)

accept_after_forgery_example :
    (handle_relationship_accept peer_list proposal_map self james "{}" "k"
      (some yes)
      (handle_relationship_accept peer_list proposal_map self eve "{}" "k"
        (some yes)
        asked).0).0.relationships
    ≡ []
accept_after_forgery_example =
    accept_after_forgery peer_list proposal_map self asked proposal_map-IsProposalStore eve "{}"
      "{}" "k" "k" yes to_james pending not_eve
