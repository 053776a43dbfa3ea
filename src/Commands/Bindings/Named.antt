-- ===== src/Commands/Bindings/Named.antt =====
-- commands.py and adapter.py: what a binding of the user changes for the names of the peers.
use aap_hermes.Prelude.{
  String, ◌≡◌, ◌∙◌, ap, false, Option, none, some, List, ◌∷◌, arith, ◌==◌, ==_refl, if◌then◌else◌,
  Bool-cases, inl, inr,
}
use aap_hermes.Prelude.Text.{is_empty, strip}
use aap_hermes.Contacts.{File}
use aap_hermes.Tools.Address.{Addresses, parse_user_address}
use aap_hermes.Adapter.Identities.{Identity}
use aap_hermes.Adapter.Bindings.{
  Binding, BindingStore, IsBindingStore, name_of, resolve_peer_label, maybe_identity_bind_prompt,
}
use aap_hermes.Commands.Bindings.{bind_identity, unbind_identity}

module _ (B : BindingStore) (L : IsBindingStore B) (a : Addresses) (lower : String → String)
    (file : File) where
  abbrev made : String → Binding
  made contact = record {
    contact_id = strip contact;
    matched_type = "manual";
    matched_value = strip contact;
  }

  bind_identity-eq-bind :
      (address contact peer : String) (rest : List String) (s : B.State)
      → parse_user_address a address ≡ some peer
      → is_empty (strip contact) ≡ false
      → (bind_identity B a (address ∷ contact ∷ rest) s).1 ≡ B.bind peer (made contact) s
  unfolding bind_identity
  bind_identity-eq-bind address contact peer rest s parsed given = ground (arith, parsed, given)

  unbind_identity-eq-unbind :
      (address peer : String) (s : B.State)
      → parse_user_address a address ≡ some peer
      → (unbind_identity B a address s).1 ≡ (B.unbind peer s).0
  unfolding unbind_identity
  unbind_identity-eq-unbind address peer s parsed = ground (arith, parsed)

  label-bind :
      (peer contact k : String) (s : B.State)
      → resolve_peer_label B file k (B.bind peer (made contact) s)
        ≡ (if peer == k then name_of file (strip contact) else resolve_peer_label B file k s)
  unfolding resolve_peer_label
  label-bind peer contact k s = elim (Bool-cases (peer == k)) [
    | inl same ↦ ground (arith, same, L.binding_for-bind peer (made contact) s k)
    | inr other ↦ ground (arith, other, L.binding_for-bind peer (made contact) s k)
  ]

  label-unbind :
      (peer k : String) (s : B.State)
      → resolve_peer_label B file k (B.unbind peer s).0
        ≡ (if peer == k then some none else resolve_peer_label B file k s)
  unfolding resolve_peer_label
  label-unbind peer k s = elim (Bool-cases (peer == k)) [
    | inl same ↦ ground (arith, same, L.binding_for-unbind peer s k)
    | inr other ↦ ground (arith, other, L.binding_for-unbind peer s k)
  ]

  label-unbind-bind :
      (peer contact k : String) (s : B.State)
      → resolve_peer_label B file k (B.unbind peer (B.bind peer (made contact) s)).0
        ≡ (if peer == k then some none else resolve_peer_label B file k s)
  label-unbind-bind peer contact k s =
      let known = label-bind peer contact k s in
      let gone = label-unbind peer k (B.bind peer (made contact) s) in
      elim (Bool-cases (peer == k)) [
        | inl same ↦ ground (arith, same, gone)
        | inr other ↦ ground (arith, other, known, gone)
      ]

  unasked :
      (peer contact : String) (card : Option (List Identity)) (s : B.State)
      → maybe_identity_bind_prompt B lower file card peer (B.bind peer (made contact) s) ≡ some none
  unfolding maybe_identity_bind_prompt
  unasked peer contact card s =
      ground (arith, ==_refl peer, L.binding_for-bind peer (made contact) s peer)

  -- If an address can be parsed and a contact id is not blank, then after the user has bound the
  -- address to the id, the peer of that address has the name that looking up the id in the contacts
  -- gives, and the user is not asked who it is, whatever its card says. After the address has been
  -- unbound again the peer has no name. The names of all other peers stay as they were both times.
  pub bind_unbind :
      (address contact peer k : String) (rest : List String) (card : Option (List Identity))
      (s : B.State)
      → parse_user_address a address ≡ some peer
      → is_empty (strip contact) ≡ false
      → let bound = (bind_identity B a (address ∷ contact ∷ rest) s).1 in
        let unbound = (unbind_identity B a address bound).1 in
        (resolve_peer_label B file k bound
          ≡ (if peer == k then name_of file (strip contact) else resolve_peer_label B file k s))
        × (maybe_identity_bind_prompt B lower file card peer bound ≡ some none)
        × (resolve_peer_label B file k unbound
            ≡ (if peer == k then some none else resolve_peer_label B file k s))
  bind_unbind address contact peer k rest card s parsed given =
      let b = bind_identity-eq-bind address contact peer rest s parsed given in
      let u =
        unbind_identity-eq-unbind address peer (bind_identity B a (address ∷ contact ∷ rest) s).1
          parsed in
      (
        ap (resolve_peer_label B file k) b ∙ label-bind peer contact k s,
        ap (maybe_identity_bind_prompt B lower file card peer) b ∙ unasked peer contact card s,
        ap (resolve_peer_label B file k) (u ∙ ap (λ st. (B.unbind peer st).0) b)
            ∙ label-unbind-bind peer contact k s,
      )
