-- ===== src/Commands/Friends.antt =====
-- commands.py: `_friend_accept_cmd` and `_friend_decline_cmd`, the user's answers to a proposal.
pub mod Retried
use aap_hermes.Prelude.{
  String, Bool, Option, none, some, List, [], ◌∷◌, ◌==◌, ◌&&◌, is_some, if◌then◌else◌,
}
use aap_hermes.Adapter.Stores.{RelationshipStore, Proposal, ProposalStore}
use aap_hermes.Adapter.Relationships.{Self, Stores}

-- What a command answers.
pub data Reply : Type 0 where
  no_pending : String → Reply
  send_failed : Reply
  accept_failed : Reply
  accepted : String → String → Reply
  declined : String → String → Reply

-- What the commands use of the client: whether the relay takes an envelope for a peer, and the key
-- that a peer publishes, `none` where that raises.
pub record Client : Type 0 where
  pub reaches : String → Bool
  pub resolve_peer : String → Option String

module _ (R : RelationshipStore) (P : ProposalStore) where
  -- The reply, the envelopes that the relay took, and the stores.
  abbrev pub Outcome : Type 0
  Outcome = Reply × List (String × String) × Stores R P

  established_by : Self → String → Proposal → Stores R P → Option String → Option R.State
  established_by me json row st none = none
  established_by me json row st (some key) =
      R.establish me.address row.peer_address row.proposal_envelope_json json key me.public_key
        st.relationships

  settle : Proposal → String → Stores R P → Option R.State → Outcome
  settle row json st none = (accept_failed, (row.peer_address, json) ∷ [], st)
  settle row json st (some r) = (
    accepted row.relationship_type row.peer_address,
    (row.peer_address, json) ∷ [],
    record st { relationships = r },
  )

  accept_taken : Client → Self → String → Option Proposal → String → Stores R P → Outcome
  unfolding settle established_by
  accept_taken client me json none nonce st = (no_pending nonce, [], st)
  accept_taken client me json (some row) nonce st =
      if client.reaches row.peer_address
      then settle row json st (established_by me json row st (client.resolve_peer row.peer_address))
      else (send_failed, [], st)

  -- `_friend_accept_cmd`; `json` is the accept envelope that it signs for the nonce.
  unfoldable pub friend_accept_cmd : Client → Self → String → String → Stores R P → Outcome
  unfolding accept_taken
  friend_accept_cmd client me json nonce st =
      let (p, row) = P.take_inbound nonce st.proposals in
      accept_taken client me json row nonce (record st { proposals = p })

  decline_taken : Client → String → Option Proposal → String → Stores R P → Outcome
  decline_taken client json none nonce st = (no_pending nonce, [], st)
  decline_taken client json (some row) nonce st =
      if client.reaches row.peer_address
      then (declined row.relationship_type row.peer_address, (row.peer_address, json) ∷ [], st)
      else (send_failed, [], st)

  -- `_friend_decline_cmd`
  unfoldable pub friend_decline_cmd : Client → String → String → Stores R P → Outcome
  unfolding decline_taken
  friend_decline_cmd client json nonce st =
      let (p, row) = P.take_inbound nonce st.proposals in
      decline_taken client json row nonce (record st { proposals = p })
