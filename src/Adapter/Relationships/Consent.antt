-- ===== src/Adapter/Relationships/Consent.antt =====
-- adapter.py, the relationship handlers: where a relationship comes from, and what an answer of
-- another peer does to a proposal.
use aap_hermes.Prelude.{String, ◌≡◌, ◌≢◌, some, arith, ==_iff, inl, inr, Option-cases}
use aap_hermes.Adapter.Stores.{RelationshipStore, ProposalStore, Proposal, IsProposalStore}
use aap_hermes.Adapter.Relationships.{
  RelationshipAccept, RelationshipDecline, Self, Stores, handle_relationship_accept,
  handle_relationship_decline,
}

module _ (R : RelationshipStore) (P : ProposalStore) (me : Self) (st : Stores R P) where
  -- An accept that changes the relationships answers a proposal of ours that is pending under its
  -- nonce and went to the sender, and the change is what the store establishes from the two
  -- envelopes.
  accept_establishes :
      (iss json key : String) (acc : RelationshipAccept)
      → (handle_relationship_accept R P me iss json key (some acc) st).0.relationships
        ≢ st.relationships
      → (row : Proposal) × ((P.take_outbound acc.proposal_nonce st.proposals).1 ≡ some row)
        × (row.peer_address ≡ iss)
        × (R.establish me.address iss row.proposal_envelope_json json me.public_key key
              st.relationships
            ≡ some (handle_relationship_accept R P me iss json key (some acc) st).0.relationships)
  unfolding handle_relationship_accept
  accept_establishes iss json key acc changed =
      elim (Option-cases (P.take_outbound acc.proposal_nonce st.proposals).1) [
        | inl absent ↦ absurd (changed (ground (arith, absent)))
        | inr (row, pending) ↦
            let established =
              R.establish me.address iss row.proposal_envelope_json json me.public_key key
                st.relationships in
            elim (Option-cases established) [
              | inl refused ↦ absurd (changed (ground (arith, pending, refused)))
              | inr (r, done) ↦ (
                row,
                pending,
                ground (arith, pending, done, ==_iff row.peer_address iss),
                ground (arith, pending, done, ==_iff row.peer_address iss),
              )
            ]
      ]

  -- If a taken proposal is gone, an accept of another peer than the one that was asked uses the
  -- proposal up: the accept of the right peer, when it comes next, establishes nothing.
  pub accept_after_forgery :
      (L : IsProposalStore P) (forger json json' key key' : String) (acc : RelationshipAccept)
      (row : Proposal)
      → (P.take_outbound acc.proposal_nonce st.proposals).1 ≡ some row
      → row.peer_address ≢ forger
      → let forged = (handle_relationship_accept R P me forger json key (some acc) st).0 in
        (handle_relationship_accept R P me row.peer_address json' key'
          (some acc)
          forged).0.relationships
        ≡ st.relationships
  unfolding handle_relationship_accept
  accept_after_forgery L forger json json' key key' acc row pending other =
      ground (
        arith,
        pending,
        ==_iff row.peer_address forger,
        L.take_self acc.proposal_nonce st.proposals,
      )

  -- If a taken proposal is gone, a decline of any peer uses the proposal up: an accept that comes
  -- next establishes nothing.
  accept_after_decline :
      (L : IsProposalStore P) (decliner iss json key : String) (dec : RelationshipDecline)
      → let declined = (handle_relationship_decline R P decliner (some dec) st).0 in
        (handle_relationship_accept R P me iss json key
          (some (record { proposal_nonce = dec.proposal_nonce }))
          declined).0.relationships
        ≡ st.relationships
  unfolding handle_relationship_accept handle_relationship_decline
  accept_after_decline L decliner iss json key dec =
      ground (arith, L.take_self dec.proposal_nonce st.proposals)
