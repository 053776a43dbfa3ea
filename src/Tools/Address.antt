-- ===== src/Tools/Address.antt =====
-- address_input.py: an address as a user or the model enters it.
use aap_hermes.Prelude.{String, Option, none, some, if◌then◌else◌}
use aap_hermes.Prelude.Text.{◌<>◌, strip}
use aap_hermes.Adapter.Noise.{ends_with}

-- `aap.address.Address`, which is not in the repository: `parse_user_input` is `none` in the older
-- releases that lack it, and a result is `none` where the function raises.
pub record Addresses : Type 0 where
  pub parse_user_input : Option (String → Option String)
  pub parse : String → Option String

unfoldable pub with_domain : String → String
with_domain s = if ends_with b'^' s then s <> "agentaddress.org" else s

unfoldable pub parse_user_address : Addresses → String → Option String
unfolding with_domain
parse_user_address a value = elim a.parse_user_input [
  | none ↦ a.parse (with_domain (strip value))
  | some parser ↦ parser value
]
