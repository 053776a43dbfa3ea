-- ===== src/Commands/Friends/Retried.antt =====
-- commands.py, `_friend_accept_cmd`: an answer that could not be sent.
use aap_hermes.Prelude.{String, ◌≡◌, sym, subst, none, [], arith, Option-cases, inl, inr}
use aap_hermes.Adapter.Stores.{RelationshipStore, ProposalStore, IsProposalStore}
use aap_hermes.Adapter.Relationships.{Self, Stores}
use aap_hermes.Commands.Friends.{Client, no_pending, friend_accept_cmd, friend_decline_cmd}

module _ (R : RelationshipStore) (P : ProposalStore) (L : IsProposalStore P) (me : Self)
    (json nonce : String) (st : Stores R P) where
  proposals-friend_accept_cmd :
      (client : Client)
      → (friend_accept_cmd R P client me json nonce st).2.proposals
        ≡ (P.take_inbound nonce st.proposals).0
  unfolding friend_accept_cmd
  proposals-friend_accept_cmd client = elim (Option-cases (P.take_inbound nonce st.proposals).1) [
    | inl absent ↦ ground (arith, absent)
    | inr (row, pending) ↦ elim (Option-cases (client.resolve_peer row.peer_address)) [
      | inl unresolved ↦ ground (arith, pending, unresolved)
      | inr (key, resolved) ↦
          elim (Option-cases (
            R.establish me.address row.peer_address row.proposal_envelope_json json key
              me.public_key st.relationships)) [
                | inl refused ↦ ground (arith, pending, resolved, refused)
                | inr (r, done) ↦ ground (arith, pending, resolved, done)
              ]
    ]
  ]

  friend_accept_absent :
      (client : Client)
      → (P.take_inbound nonce st.proposals).1 ≡ none
      → ((friend_accept_cmd R P client me json nonce st).0 ≡ no_pending nonce)
        × ((friend_accept_cmd R P client me json nonce st).1 ≡ [])
        × ((friend_accept_cmd R P client me json nonce st).2.relationships ≡ st.relationships)
  unfolding friend_accept_cmd
  friend_accept_absent client absent =
      (ground (arith, absent), ground (arith, absent), ground (arith, absent))

  friend_decline_absent :
      (client : Client)
      → (P.take_inbound nonce st.proposals).1 ≡ none
      → ((friend_decline_cmd R P client json nonce st).0 ≡ no_pending nonce)
        × ((friend_decline_cmd R P client json nonce st).1 ≡ [])
  unfolding friend_decline_cmd
  friend_decline_absent client absent = (ground (arith, absent), ground (arith, absent))

module _ (R : RelationshipStore) (P : ProposalStore) (L : IsProposalStore P) (me : Self)
    (json nonce : String) (st : Stores R P) where
  -- A proposal can be answered once, whether or not the answer went through: after any acceptance,
  -- also one that could not be sent or that the store refused, a second acceptance or a refusal of
  -- the same proposal finds nothing, sends nothing and establishes nothing.
  pub friend_accept_retried :
      (client client' : Client) (json' : String)
      → let first = (friend_accept_cmd R P client me json nonce st).2 in
        let again = friend_accept_cmd R P client' me json' nonce first in
        let refusal = friend_decline_cmd R P client' json' nonce first in
        (again.0 ≡ no_pending nonce)
        × (again.1 ≡ [])
        × (again.2.relationships ≡ first.relationships)
        × (refusal.0 ≡ no_pending nonce)
        × (refusal.1 ≡ [])
  friend_accept_retried client client' json' =
      let first = (friend_accept_cmd R P client me json nonce st).2 in
      let absent : (P.take_inbound nonce first.proposals).1 ≡ none =
        subst (λ p. (P.take_inbound nonce p).1 ≡ none)
          (sym (proposals-friend_accept_cmd R P L me json nonce st client))
          (L.take_inbound_self nonce st.proposals) in
      let (replied, unsent, unchanged) =
        friend_accept_absent R P L me json' nonce first client' absent in
      let (declined, silent) = friend_decline_absent R P L me json' nonce first client' absent in
      (replied, unsent, unchanged, declined, silent)
