-- ===== src/Adapter/Bindings.antt =====
-- adapter.py, `_resolve_peer_label` and `_maybe_identity_bind_prompt`: the contact that a peer is
-- bound to, and the question that may bind it.
use aap_hermes.Prelude.{
  String, Bool, ◌≡◌, ◌==◌, ◌>>=◌, if◌then◌else◌, Option, none, some, List, [], ◌∷◌,
}
use aap_hermes.Contacts.{Contact, File, load, get_by_id}
use aap_hermes.Adapter.Identities.{Identity, first_match}
use aap_hermes.Consent.{identity_binding_prompt_text}

pub record Binding : Type 0 where
  pub contact_id : String
  pub matched_type : String
  pub matched_value : String

-- `IdentityBindingStore` of the `aap` package; `unbind` also says whether there was a binding.
pub record BindingStore : Type 1 where
  pub State : Type 0
  pub binding_for : String → State → Option Binding
  pub bind : String → Binding → State → State
  pub unbind : String → State → State × Bool

-- The store maps addresses to bindings.
pub record IsBindingStore (B : BindingStore) : Type 0 where
  pub binding_for-bind :
      (peer : String) (b : Binding) (s : B.State) (k : String)
      → B.binding_for k (B.bind peer b s) ≡ (if peer == k then some b else B.binding_for k s)
  pub binding_for-unbind :
      (peer : String) (s : B.State) (k : String)
      → B.binding_for k (B.unbind peer s).0 ≡ (if peer == k then none else B.binding_for k s)

-- The name of the contact with an id; `none` where loading the contacts raises.
unfoldable pub name_of : File → String → Option (Option String)
unfolding load get_by_id
name_of file id = do
  cs ← load file
  some (elim (get_by_id id cs) [ none ↦ none | some c ↦ some c.display_name ])

abbrev asked_of : String → Option (Identity × Contact) → Option String
asked_of peer none = none
asked_of peer (some (i, c)) = some (identity_binding_prompt_text peer c.display_name i.type i.value)

-- The question, for the identities of the peer's card.
prompt_for : (String → String) → File → String → List Identity → Option (Option String)
unfolding load first_match identity_binding_prompt_text
prompt_for lower file peer [] = some none
prompt_for lower file peer (i ∷ rest) = do
  cs ← load file
  some (asked_of peer (first_match lower cs (i ∷ rest)))

module _ (B : BindingStore) where
  unfoldable pub resolve_peer_label : File → String → B.State → Option (Option String)
  unfolding name_of
  resolve_peer_label file peer s = elim (B.binding_for peer s) [
    | none ↦ some none
    | some b ↦ name_of file b.contact_id
  ]

  -- The verified identities of the card are `none` where it cannot be resolved.
  unfoldable pub maybe_identity_bind_prompt :
      (String → String) → File → Option (List Identity) → String → B.State → Option (Option String)
  unfolding prompt_for
  maybe_identity_bind_prompt lower file card peer s = elim (B.binding_for peer s) [
    | some b ↦ some none
    | none ↦ elim card [ none ↦ some none | some verified ↦ prompt_for lower file peer verified ]
  ]
