-- ===== src/Examples/Setup.antt =====
-- A setup on a console with a list of answers, and the commands for the key and the verifiers.
use aap_hermes.Prelude.{
  ℕ, suc, ◌<◌, String, ◌≡◌, ◌≢◌, arith, Bool, true, false, Option, none, some, List, [], ◌∷◌, ◌==◌,
}
use aap_hermes.Setup.Desk.{Outside, IsOutside, answered, Desk, absent, saved, unfinished}
use aap_hermes.Setup.Hosted.{setup_hosted_path}
use aap_hermes.Setup.Hosted.Ended.{setup_hosted_path_ends}
use aap_hermes.Setup.Byod.{Existing, setup_byod_path}
use aap_hermes.Setup.Byod.Guarded.{IsByod, setup_byod_path-IsByod}
use aap_hermes.Commands.Rotation.Rotated.{run}
use aap_hermes.Commands.Overrides.{File}
use aap_hermes.Commands.Overrides.Verdicts
use aap_hermes.Commands.Overrides.Verdicts.{trust, distrust, verdict, meaning, verdict-run}
use aap_hermes.Examples.World.{james}

abbrev count : List String → ℕ
count [] = 0
count (a ∷ rest) = suc (count rest)

abbrev answer_of : List String → Option String
answer_of [] = none
answer_of (a ∷ rest) = some a

abbrev after : List String → List String
after [] = []
after (a ∷ rest) = rest

abbrev agreed : Option String → Option Bool
agreed none = none
agreed (some a) = some (a == "y")

abbrev first_choice : Option String → Option ℕ
first_choice none = none
first_choice (some a) = some 0

-- a verifier that signs every start and attests every code, and a relay that takes every request
abbrev console : Outside
console = record {
  State = List String;
  prompt = λ question def s. (answer_of s, after s);
  prompt_yes_no = λ question def s. (agreed (answer_of s), after s);
  prompt_choice = λ question def s. (first_choice (answer_of s), after s);
  generate_keypair = λ s. (("seed", "key"), s);
  generate_encryption_keypair = λ s. (("esecret", "ekey"), s);
  token_urlsafe = λ s. ("n", s);
  get = λ url localpart s. (answered 200 "{}", s);
  post_start = λ url r seed s. (answered 200 "{}", s);
  post_address = λ r seed s. (answered 200 "{}", s);
  post_json = λ url fields s. (answered 200 "{}", s);
  verifier_key = λ domain s. (some (some "v"), s);
  confirm_email_verification = λ c seed s. (some "{}", s);
  parse_address = λ a. some ("james", "hermes.example");
  urlparse = λ url. (url, "");
  from_json = λ text. some (record { iss = "v"; payload_type = "start"; json = text });
  verify_envelope = λ e key. true;
  start_response_type = "start";
  start_from_dict = λ e. some (record { request_nonce = "n"; otp_id = "o" });
  verifier_relay_address = λ domain. "v";
  is_json = λ text. true;
  is_object = λ text. true;
  text_field = λ k text. none;
  flag_field = λ k text. some false;
}

after-le : (s : List String) → count (after s) < suc (count s)
after-le [] = omega arith
after-le (a ∷ rest) = omega arith

after-lt : (s : List String) (a : String) → answer_of s ≡ some a → count (after s) < count s
after-lt [] a h = absurd (ground (arith, h))
after-lt (b ∷ rest) a h = omega arith

console-IsOutside : IsOutside console
console-IsOutside = record {
  left = count;
  prompt_lt = λ q def s a h. after-lt s a h;
  prompt_le = λ q def s. ground (arith, after-le s);
  prompt_yes_no_le = λ q def s. ground (arith, after-le s);
  generate_keypair_le = λ s. omega arith;
  generate_encryption_keypair_le = λ s. omega arith;
  token_urlsafe_le = λ s. omega arith;
  get_le = λ url localpart s. omega arith;
  post_start_le = λ url r seed s. omega arith;
  post_address_le = λ r seed s. omega arith;
  verifier_key_le = λ domain s. omega arith;
  confirm_le = λ c seed s. omega arith;
}

-- The name, whether to recover it, the email address, and the code.
abbrev desk : Desk console
desk = record {
  outside = "james" ∷ "y" ∷ "james@hermes.example" ∷ "1234" ∷ [];
  files = record { env = []; identity = absent; rotation = none };
}

enough : console-IsOutside.left desk.outside < 5
unfolding console-IsOutside
enough = omega arith

setup_hosted_path_ends_example : (setup_hosted_path console 5 "" desk).0 ≢ unfinished
setup_hosted_path_ends_example = setup_hosted_path_ends console-IsOutside 5 "" desk enough

abbrev fresh : Existing
fresh = record { domain = ""; localpart = ""; relay_url = ""; verifier_url = ""; trust_root = "" }

-- The domain, the localpart, the relay, no claim now, and whether to overwrite the key.
abbrev operator : Desk console
operator = record {
  outside = "hermes.example" ∷ "james" ∷ "0" ∷ "n" ∷ "y" ∷ [];
  files = record {
    env = [];
    identity = saved (record {
      private_seed = "old";
      public_key = "old";
      encryption_private_key = "old";
      encryption_public_key = "old";
      address = james;
    });
    rotation = none;
  };
}

setup_byod_path-IsByod_example :
    IsByod console (λ t. t) operator.files (setup_byod_path console (λ t. t) fresh operator)
setup_byod_path-IsByod_example = setup_byod_path-IsByod console (λ t. t) fresh operator

-- every key has 32 bytes
abbrev decode : String → Option ℕ
decode key = some 32

verdict-run_example :
    verdict (
      Verdicts.run decode
        (trust ("a.example" ∷ "k" ∷ []) ∷ distrust ("b.example" ∷ []) ∷ [])
        File.unusable)
    ≡ meaning decode
        (trust ("a.example" ∷ "k" ∷ []) ∷ distrust ("b.example" ∷ []) ∷ [])
        (verdict File.unusable)
verdict-run_example =
    verdict-run decode (trust ("a.example" ∷ "k" ∷ []) ∷ distrust ("b.example" ∷ []) ∷ [])
      File.unusable
