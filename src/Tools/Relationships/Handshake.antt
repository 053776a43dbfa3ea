-- ===== src/Tools/Relationships/Handshake.antt =====
-- tools.py, adapter.py and commands.py: a proposal, its answer and the two sides that establish the
-- relationship.
use aap_hermes.Prelude.{
  String, ◌≡◌, refl, sym, Bool, true, some, List, [], ◌∷◌, arith, ==_iff, Option-cases, inl, inr,
  subst,
}
use aap_hermes.TurnContext.{Context}
use aap_hermes.Contacts.{Contact}
use aap_hermes.Adapter.Stores.{RelationshipStore, Proposal, ProposalStore, IsProposalStore}
use aap_hermes.Adapter.Identities.{Verification}
use aap_hermes.Adapter.Relationships.{Self, handle_relationship_accept}
use aap_hermes.Adapter.Proposals.{RelationshipProposal, handle_relationship_proposal}
use aap_hermes.Commands.Friends.{Client, friend_accept_cmd}
use aap_hermes.Tools.Address.{Addresses, parse_user_address}
use aap_hermes.Tools.Relationships.{
  Terms, Draft, pending_approval, terms_refusal, originator_refusal, propose_to,
  aap_propose_relationship,
}

module _ (R : RelationshipStore) (P : ProposalStore) (L : IsProposalStore P) where
  -- What we have on record of a proposal that we send.
  abbrev pub outbound_row : Terms → Draft → String → Proposal
  outbound_row t draft to = record {
    peer_address = to;
    relationship_type = t.relationship_type;
    resource = t.resource;
    proposal_envelope_json = draft.json;
  }

  -- What is on record of a proposal that comes in.
  abbrev pub inbound_row : RelationshipProposal → String → String → Proposal
  inbound_row prop iss json = record {
    peer_address = iss;
    relationship_type = prop.relationship_type;
    resource = prop.resource;
    proposal_envelope_json = json;
  }

  propose_to_pending :
      (reaches : String → Bool) (draft : Draft) (t : Terms) (to : String) (s : P.State)
      (nonce : String)
      → (propose_to P reaches draft t to s).0 ≡ pending_approval nonce
      → (draft.nonce ≡ nonce)
        × ((propose_to P reaches draft t to s).1 ≡ (to, draft.json) ∷ [])
        × ((propose_to P reaches draft t to s).2
            ≡ P.record_outbound draft.nonce (outbound_row t draft to) s)
  unfolding propose_to
  propose_to_pending reaches draft t to s nonce h =
      (ground (arith, h), ground (arith, h), ground (arith, h))

  module _ (a : Addresses) (reaches : String → Bool) (c : Context) (draft : Terms → Draft)
      (t : Terms) (s : P.State) where
    propose_pending :
        (nonce to : String)
        → (aap_propose_relationship P a reaches c draft t s).0 ≡ pending_approval nonce
        → parse_user_address a t.peer_address ≡ some to
        → ((draft t).nonce ≡ nonce)
          × ((aap_propose_relationship P a reaches c draft t s).1 ≡ (to, (draft t).json) ∷ [])
          × ((aap_propose_relationship P a reaches c draft t s).2
              ≡ P.record_outbound (draft t).nonce (outbound_row t (draft t) to) s)
    unfolding aap_propose_relationship
    propose_pending nonce to pending parsed = elim (Option-cases (terms_refusal t)) [
      | inr (e, bad) ↦ absurd (ground (arith, pending, bad))
      | inl fine ↦ elim (Option-cases (originator_refusal c to)) [
        | inr (e, bad) ↦ absurd (ground (arith, pending, fine, parsed, bad))
        | inl free ↦
            let (numbered, sent, stored) =
              propose_to_pending reaches (draft t) t to s nonce
                (ground (arith, pending, fine, parsed, free)) in
            (
              numbered,
              ground (arith, sent, fine, parsed, free),
              ground (arith, stored, fine, parsed, free),
            )
      ]
    ]

  -- The peer parks the proposal and its user accepts it.
  parked_accept :
      (V : Verification) (lower repr : String → String) (contacts : List Contact) (client : Client)
      (me : Self) (iss json accept key : String) (prop : RelationshipProposal) (r r' : R.State)
      (p : P.State)
      → client.reaches iss ≡ true
      → client.resolve_peer iss ≡ some key
      → R.establish me.address iss json accept key me.public_key r ≡ some r'
      → let parked =
          (handle_relationship_proposal V P lower repr (some contacts) iss json (some prop) p).0 in
        let outcome =
          friend_accept_cmd R P client me accept prop.nonce
            (record { relationships = r; proposals = parked }) in
        (outcome.1 ≡ (iss, accept) ∷ []) × (outcome.2.relationships ≡ r')
  unfolding handle_relationship_proposal friend_accept_cmd
  parked_accept V lower repr contacts client me iss json accept key prop r r' p reached resolved
        done =
      let row = L.take-record_inbound prop.nonce (inbound_row prop iss json) p in
      (ground (arith, row, reached, resolved, done), ground (arith, row, reached, resolved, done))

  -- The accept comes back to the side that proposed.
  answered_accept :
      (me : Self) (iss accept key : String) (row : Proposal) (nonce : String) (r r' : R.State)
      (p : P.State)
      → row.peer_address ≡ iss
      → R.establish me.address iss row.proposal_envelope_json accept me.public_key key r ≡ some r'
      → (handle_relationship_accept R P me iss accept key
          (some (record { proposal_nonce = nonce }))
          (record { relationships = r; proposals = P.record_outbound nonce row p })).0.relationships
        ≡ r'
  unfolding handle_relationship_accept
  answered_accept me iss accept key row nonce r r' p addressed done =
      ground
        (arith, L.take-record_outbound nonce row p, addressed, done, ==_iff row.peer_address iss)

  -- A whole handshake. If our proposal to a peer is pending, and the peer's user accepts it while the
  -- relay takes the answer and our key can be resolved, and the stores of both sides take the two
  -- envelopes, then each side has sent exactly one envelope, to the other, and both have established
  -- the relationship from the same two envelopes.
  pub both_establish :
      (a : Addresses) (reaches : String → Bool) (c : Context) (draft : Terms → Draft) (t : Terms)
      (ours theirs : P.State) (V : Verification) (lower repr : String → String)
      (contacts : List Contact) (client : Client) (me peer : Self) (accept : String)
      (prop : RelationshipProposal) (r r' q q' : R.State)
      → (aap_propose_relationship P a reaches c draft t ours).0 ≡ pending_approval prop.nonce
      → parse_user_address a t.peer_address ≡ some peer.address
      → client.reaches me.address ≡ true
      → client.resolve_peer me.address ≡ some me.public_key
      → R.establish peer.address me.address (draft t).json accept me.public_key peer.public_key q
        ≡ some q'
      → R.establish me.address peer.address (draft t).json accept me.public_key peer.public_key r
        ≡ some r'
      → let proposed = aap_propose_relationship P a reaches c draft t ours in
        let parked =
          (handle_relationship_proposal V P lower repr
            (some contacts)
            me.address
            (draft t).json
            (some prop)
            theirs).0 in
        let answered =
          friend_accept_cmd R P client peer accept prop.nonce
            (record { relationships = q; proposals = parked }) in
        let concluded =
          (handle_relationship_accept R P me peer.address accept peer.public_key
            (some (record { proposal_nonce = prop.nonce }))
            (record { relationships = r; proposals = proposed.2 })).0 in
        (proposed.1 ≡ (peer.address, (draft t).json) ∷ [])
        × (answered.1 ≡ (me.address, accept) ∷ [])
        × (answered.2.relationships ≡ q')
        × (concluded.relationships ≡ r')
  both_establish a reaches c draft t ours theirs V lower repr contacts client me peer accept prop r
        r' q q' pending parsed reached resolved theirs_done ours_done =
      let (numbered, sent, stored) =
        propose_pending a reaches c draft t ours prop.nonce peer.address pending parsed in
      let (answered, established_there) =
        parked_accept V lower repr contacts client peer me.address (draft t).json accept
          me.public_key prop q q' theirs reached resolved theirs_done in
      let row = outbound_row t (draft t) peer.address in
      let recorded : (aap_propose_relationship P a reaches c draft t ours).2
          ≡ P.record_outbound prop.nonce row ours =
        cc in
      let here =
        answered_accept me peer.address accept peer.public_key row prop.nonce r r' ours refl
          ours_done in
      (
        sent,
        answered,
        established_there,
        subst
            (λ p.
              (handle_relationship_accept R P me peer.address accept peer.public_key
                (some (record { proposal_nonce = prop.nonce }))
                (record { relationships = r; proposals = p })).0.relationships
              ≡ r')
            (sym recorded) here,
      )
