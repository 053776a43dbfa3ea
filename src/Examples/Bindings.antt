-- ===== src/Examples/Bindings.antt =====
-- James, whom the user binds to a contact.
use aap_hermes.Prelude.{◌≡◌, refl, false, none, some, [], ◌∷◌, ◌==◌, if◌then◌else◌}
use aap_hermes.Prelude.Text.{is_empty, strip}
use aap_hermes.Prelude.Dict.{Dict, lookup, erase, lookup-erase}
use aap_hermes.Contacts.{File}
use aap_hermes.Tools.Address.{parse_user_address, with_domain}
use aap_hermes.Adapter.Noise.{ends_with}
use aap_hermes.Prelude.{is_some}
use aap_hermes.Adapter.Bindings.{
  Binding, BindingStore, IsBindingStore, name_of, resolve_peer_label, maybe_identity_bind_prompt,
}
use aap_hermes.Commands.Bindings.{bind_identity, unbind_identity}
use aap_hermes.Commands.Bindings.Named.{bind_unbind}
use aap_hermes.Examples.World.{james, addresses}

abbrev binding_map : BindingStore
binding_map = record {
  State = Dict Binding;
  binding_for = lookup;
  bind = λ peer b s. (peer, b) ∷ s;
  unbind = λ peer s. (erase peer s, is_some (lookup peer s));
}

binding_map-IsBindingStore : IsBindingStore binding_map
unfolding lookup
binding_map-IsBindingStore = record {
  binding_for-bind = λ peer b s k. refl;
  binding_for-unbind = λ peer s k. lookup-erase peer k s;
}

abbrev file : File
file =
    File.contacts (
      record { id = some "c1"; display_name = some "James Lane"; phones = none; emails = none }
      ∷ [])

is_james : parse_user_address addresses james ≡ some james
unfolding parse_user_address with_domain ends_with strip
is_james = refl

is_given : is_empty (strip "c1") ≡ false
unfolding strip
is_given = refl

abbrev bound : Dict Binding
bound = (bind_identity binding_map addresses (james ∷ "c1" ∷ []) []).1

abbrev unbound : Dict Binding
unbound = (unbind_identity binding_map addresses james bound).1

bind_unbind_example :
    (resolve_peer_label binding_map file james bound ≡ (
      if james == james
      then name_of file (strip "c1")
      else resolve_peer_label binding_map file james []))
    × (maybe_identity_bind_prompt binding_map (λ t. t) file none james bound ≡ some none)
    × (resolve_peer_label binding_map file james unbound
        ≡ (if james == james then some none else resolve_peer_label binding_map file james []))
bind_unbind_example =
    bind_unbind binding_map binding_map-IsBindingStore addresses (λ t. t) file james "c1" james
      james [] none [] is_james is_given
