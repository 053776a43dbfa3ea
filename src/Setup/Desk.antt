-- ===== src/Setup/Desk.antt =====
-- __init__.py, the setup: what it reads and writes, and its steps, which may raise.
pub mod Laws
pub mod Outcomes
use aap_hermes.Prelude.{
  ℕ, ◌≤◌, ◌<◌, String, ◌≡◌, refl, arith, Bool, Option, none, some, List, [], ◌∷◌, ◌&&◌,
  if◌then◌else◌,
}
use aap_hermes.Prelude.Text.{code_eq, is_empty}
use aap_hermes.Prelude.Dict.{Dict, insert, lookup}
use aap_hermes.Adapter.Inbound.{Envelope}
use Prim.Native.Char.{Char, code}
use Prim.Native.String

-- `s.rstrip("/")`
unfoldable pub rstrip_slash : String → String
rstrip_slash String.[] = String.[]
rstrip_slash (String.◌∷◌ c s) =
    let rest = rstrip_slash s in
    if code_eq (code c) b'/' && is_empty rest then String.[] else String.◌∷◌ c rest

-- A response of a server: none came, or a status with the text of the body.
pub data Reply : Type 0 where
  unreachable : Reply
  answered : ℕ → String → Reply

pub record StartRequest : Type 0 where
  pub email : String
  pub subject_address : String
  pub public_key : String
  pub nonce : String

-- `VerifyStartResponse` of the `aap` package
pub record StartResponse : Type 0 where
  pub request_nonce : String
  pub otp_id : String

pub record Confirmation : Type 0 where
  pub subject_address : String
  pub otp_id : String
  pub token : String
  pub verification_endpoint : String
  pub verifier_domain : String
  pub verifier_public_key : String

-- What a claim or a rotation sends: the payload of the envelope and of the agent card in it.
pub record AddressRequest : Type 0 where
  pub url : String
  pub payload_type : String
  pub iss : String
  pub localpart : String
  pub public_key_field : String
  pub public_key : String
  pub encryption_key : String
  pub endpoint : String
  pub email_attestation : String

-- The console, the network, the source of keys and the `aap` package. A state holds all that they
-- answer by; an answer is `none` where the call raises.
pub record Outside : Type 1 where
  pub State : Type 0
  -- `prompt`, `prompt_yes_no` and `prompt_choice`, with the question and the default
  pub prompt : String → String → State → Option String × State
  pub prompt_yes_no : String → Bool → State → Option Bool × State
  pub prompt_choice : String → ℕ → State → Option ℕ × State
  -- the seed and the public key, in base 64
  pub generate_keypair : State → (String × String) × State
  pub generate_encryption_keypair : State → (String × String) × State
  pub token_urlsafe : State → String × State
  pub get : String → String → State → Reply × State
  pub post_start : String → StartRequest → String → State → Reply × State
  pub post_address : AddressRequest → String → State → Reply × State
  pub post_json : String → List (String × String) → State → Reply × State
  pub verifier_key : String → State → Option (Option String) × State
  pub confirm_email_verification : Confirmation → String → State → Option String × State
  -- functions that only compute; the fields are those of a JSON object, the flags as truth values
  -- `Address.parse`: the localpart and the domain
  pub parse_address : String → Option (String × String)
  pub urlparse : String → String × String
  pub from_json : String → Option Envelope
  pub verify_envelope : Envelope → String → Bool
  pub start_response_type : String
  pub start_from_dict : Envelope → Option StartResponse
  pub verifier_relay_address : String → String
  pub is_json : String → Bool
  pub is_object : String → Bool
  pub text_field : String → String → Option String
  pub flag_field : String → String → Option Bool

-- Every answer of the user uses up input, and nothing gives any back.
pub record IsOutside (O : Outside) : Type 0 where
  pub left : O.State → ℕ
  pub prompt_lt :
      (q def : String) (s : O.State) (a : String)
      → (O.prompt q def s).0 ≡ some a
      → left (O.prompt q def s).1 < left s
  pub prompt_le : (q def : String) (s : O.State) → left (O.prompt q def s).1 ≤ left s
  pub prompt_yes_no_le :
      (q : String) (def : Bool) (s : O.State) → left (O.prompt_yes_no q def s).1 ≤ left s
  pub generate_keypair_le : (s : O.State) → left (O.generate_keypair s).1 ≤ left s
  pub generate_encryption_keypair_le :
      (s : O.State) → left (O.generate_encryption_keypair s).1 ≤ left s
  pub token_urlsafe_le : (s : O.State) → left (O.token_urlsafe s).1 ≤ left s
  pub get_le : (url localpart : String) (s : O.State) → left (O.get url localpart s).1 ≤ left s
  pub post_start_le :
      (url : String) (r : StartRequest) (seed : String) (s : O.State)
      → left (O.post_start url r seed s).1 ≤ left s
  pub post_address_le :
      (r : AddressRequest) (seed : String) (s : O.State) → left (O.post_address r seed s).1 ≤ left s
  pub verifier_key_le : (domain : String) (s : O.State) → left (O.verifier_key domain s).1 ≤ left s
  pub confirm_le :
      (c : Confirmation) (seed : String) (s : O.State)
      → left (O.confirm_email_verification c seed s).1 ≤ left s

-- The content of `aap.json`.
pub record Identity : Type 0 where
  pub private_seed : String
  pub public_key : String
  pub encryption_private_key : String
  pub encryption_public_key : String
  pub address : String

-- The file: absent, unreadable or no JSON, JSON of another shape, or an object, in which a missing
-- entry is empty.
pub data IdentityFile : Type 0 where
  absent : IdentityFile
  unreadable : IdentityFile
  no_object : IdentityFile
  saved : Identity → IdentityFile

-- The content of `aap-rotate-pending.json`.
pub record Pending : Type 0 where
  pub address : String
  pub email : String
  pub otp_id : String
  pub new_seed : String
  pub new_public : String
  pub relay_url : String
  pub verifier_url : String
  pub verifier_domain : String

-- `~/.hermes/.env`, and `aap.json` and `aap-rotate-pending.json` in `$HERMES_HOME`
pub record Files : Type 0 where
  pub env : Dict String
  pub identity : IdentityFile
  pub rotation : Option Pending

-- How a step ended: with a value, with an exception, or not within the rounds it was given.
pub data Result (A : Type 0) : Type 0 where
  ok : A → Result A
  raised : Result A
  unfinished : Result A

module _ (O : Outside) where
  pub record Desk : Type 0 where
    pub outside : O.State
    pub files : Files

  abbrev pub Action : Type 0 → Type 0
  Action A = Desk → Result A × Desk

module _ {O : Outside} {A : Type 0} where
  unfoldable pub pure : A → Action O A
  pure a d = (ok a, d)

  unfoldable pub raise : Action O A
  raise d = (raised, d)

  unfoldable pub or_raise : Option A → Action O A
  or_raise none = raise
  or_raise (some a) = pure a

  -- A step outside.
  unfoldable pub lift : (O.State → A × O.State) → Action O A
  lift f d = let (a, s) = f d.outside in (ok a, record d { outside = s })

module _ {O : Outside} {A B : Type 0} where
  abbrev pub next : (A → Action O B) → Result A → Desk O → Result B × Desk O
  next f (ok a) d = f a d
  next f raised d = (raised, d)
  next f unfinished d = (unfinished, d)

infixl 5 ◌>>=◌
unfoldable pub ◌>>=◌ : {O : Outside} {A B : Type 0} → Action O A → (A → Action O B) → Action O B
◌>>=◌ m f d = next f (m d).0 (m d).1

infixl 5 ◌>>◌
unfoldable pub ◌>>◌ : {O : Outside} {A B : Type 0} → Action O A → Action O B → Action O B
m >> k = m >>= λ a. k

-- `try: x = ... except ...: return none`, and the tests that return `None` early
unfoldable pub or_none :
    {O : Outside} {A B : Type 0} → Option A → (A → Action O (Option B)) → Action O (Option B)
or_none none f = pure none
or_none (some a) f = f a

module _ {O : Outside} where
  -- a question to the user, which raises where the console ends
  unfoldable pub ask : String → String → Action O String
  ask question def = lift (O.prompt question def) >>= or_raise

  unfoldable pub ask_yes_no : String → Bool → Action O Bool
  ask_yes_no question def = lift (O.prompt_yes_no question def) >>= or_raise

  -- `save_env_value`
  unfoldable pub save_env_value : String → String → Action O (Unit {0})
  save_env_value k v d =
      (ok tt, record d { files = record d.files { env = insert k v d.files.env } })

  unfoldable pub write_identity : Identity → Action O (Unit {0})
  write_identity i d = (ok tt, record d { files = record d.files { identity = saved i } })

  unfoldable pub write_rotation : Option Pending → Action O (Unit {0})
  write_rotation p d = (ok tt, record d { files = record d.files { rotation = p } })

  -- `os.getenv` with a default
  unfoldable pub getenv : String → String → Action O String
  unfolding lookup
  getenv k def d = (ok (elim (lookup k d.files.env) [ none ↦ def | some v ↦ v ]), d)
