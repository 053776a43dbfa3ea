-- ===== src/Commands/Bindings.antt =====
-- commands.py: `_bind_identity` and `_unbind_identity`, by which the user says who a peer is.
pub mod Named
use aap_hermes.Prelude.{String, Option, none, some, List, [], ◌∷◌, if◌then◌else◌}
use aap_hermes.Prelude.Text.{is_empty, strip}
use aap_hermes.Tools.Address.{Addresses, parse_user_address}
use aap_hermes.Adapter.Bindings.{Binding, BindingStore}

-- What a command answers.
pub data Reply : Type 0 where
  usage : Reply
  invalid_address : String → Reply
  bound : String → String → Reply
  no_binding : String → Reply
  removed : String → Reply

module _ (B : BindingStore) (a : Addresses) where
  bind_peer : String → String → B.State → Option String → Reply × B.State
  bind_peer address contact_id s none = (invalid_address address, s)
  bind_peer address contact_id s (some peer) = if is_empty contact_id then (usage, s) else (
    bound peer contact_id,
    B.bind peer
        (record { contact_id = contact_id; matched_type = "manual"; matched_value = contact_id }) s,
  )

  unfoldable pub bind_identity : List String → B.State → Reply × B.State
  unfolding bind_peer parse_user_address strip
  bind_identity [] s = (usage, s)
  bind_identity (address ∷ []) s = (usage, s)
  bind_identity (address ∷ contact ∷ rest) s =
      bind_peer address (strip contact) s (parse_user_address a address)

  unfoldable pub unbind_identity : String → B.State → Reply × B.State
  unfolding parse_user_address
  unbind_identity address s = elim (parse_user_address a address) [
    | none ↦ (invalid_address address, s)
    | some peer ↦
        let (s', found) = B.unbind peer s in (if found then removed peer else no_binding peer, s')
  ]
