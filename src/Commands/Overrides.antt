-- ===== src/Commands/Overrides.antt =====
-- commands.py: `_trust_verifier` and `_distrust_verifier`, and the file of the overrides.
pub mod Verdicts
use aap_hermes.Prelude.{
  ℕ, String, Bool, not, Option, none, some, List, [], ◌∷◌, ◌++◌, ◌==◌, if◌then◌else◌,
}
use aap_hermes.Prelude.Text.{◌<>◌, strip, code_eq}
use aap_hermes.Prelude.Dict.{contains}

-- An entry of the `add` list; in one that the user wrote, keys may be missing.
pub record Entry : Type 0 where
  pub domain : Option String
  pub supported_identities : List String
  pub discovery_endpoint : String
  pub verification_endpoint : String
  pub pubkey_endpoint : String
  pub public_key : String

-- The lists of the file; one that is missing or `null` is empty.
pub record Overrides : Type 0 where
  pub add : List Entry
  pub remove : List String

-- `aap-trusted-verifiers-overrides.json`: absent, unreadable, no JSON or no object; or an object.
pub data File : Type 0 where
  unusable : File
  object : Overrides → File

unfoldable pub load_overrides_file : File → Overrides
load_overrides_file unusable = record { add = []; remove = [] }
load_overrides_file (object o) = o

abbrev pub is_domain : String → Entry → Bool
is_domain d e = elim e.domain [ none ↦ Bool.false | some x ↦ x == d ]

-- `[e for e in add_list if e.get("domain") != domain]`
unfoldable pub without_domain : String → List Entry → List Entry
without_domain d [] = []
without_domain d (e ∷ es) =
    let rest = without_domain d es in if is_domain d e then rest else e ∷ rest

-- `[d for d in remove_list if d != domain]`
unfoldable pub without : String → List String → List String
unfolding ◌==◌
without d [] = []
without d (x ∷ xs) = let rest = without d xs in if x == d then rest else x ∷ rest

unfoldable pub new_entry : String → String → Entry
new_entry domain key = record {
  domain = some domain;
  supported_identities = "phone" ∷ "email" ∷ [];
  discovery_endpoint = "https://" <> (domain <> "/aap/discover");
  verification_endpoint = "https://" <> (domain <> "/aap/verify");
  pubkey_endpoint = "https://" <> (domain <> "/.well-known/aap-verifier-key");
  public_key = key;
}

-- What a command answers.
pub data Reply : Type 0 where
  usage : Reply
  invalid_key : Reply
  wrong_length : Reply
  added : String → Reply
  removed : String → Reply

unfoldable pub add_override : String → String → Overrides → Overrides
unfolding without without_domain new_entry contains
add_override domain key o = record {
  add = without_domain domain o.add ++ (new_entry domain key ∷ []);
  remove = if contains o.remove domain then without domain o.remove else o.remove;
}

unfoldable pub remove_override : String → Overrides → Overrides
unfolding without_domain contains
remove_override domain o = record {
  add = without_domain domain o.add;
  remove = if contains o.remove domain then o.remove else o.remove ++ (domain ∷ []);
}

-- `decode_b64url` of the `aap` package: the number of bytes, or `none` where it raises.
module _ (decode_b64url : String → Option ℕ) where
  checked_add : String → String → File → Option ℕ → Reply × File
  checked_add domain key file none = (invalid_key, file)
  checked_add domain key file (some n) =
      if code_eq n 32
      then (added domain, object (add_override domain key (load_overrides_file file)))
      else (wrong_length, file)

  unfoldable pub trust_verifier : List String → File → Reply × File
  unfolding checked_add strip
  trust_verifier [] file = (usage, file)
  trust_verifier (domain ∷ []) file = (usage, file)
  trust_verifier (domain ∷ key ∷ rest) file =
      checked_add (strip domain) (strip key) file (decode_b64url (strip key))

unfoldable pub distrust_verifier : List String → File → Reply × File
unfolding strip
distrust_verifier [] file = (usage, file)
distrust_verifier (domain ∷ rest) file =
    (removed (strip domain), object (remove_override (strip domain) (load_overrides_file file)))
