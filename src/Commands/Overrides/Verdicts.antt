-- ===== src/Commands/Overrides/Verdicts.antt =====
-- commands.py, the overrides: the commands as changes of what the file says about each domain.
use aap_hermes.Prelude.{
  ℕ, String, ◌≡◌, refl, ◌∙◌, ap, arith, Bool, true, false, Option, none, some, List, [], ◌∷◌, ◌++◌,
  ◌==◌, ==_iff, if◌then◌else◌, Bool-cases, Option-cases, inl, inr,
}
use aap_hermes.Prelude.Text.{strip, code_eq}
use aap_hermes.Prelude.Dict.{contains}
use aap_hermes.Commands.Overrides.{
  Entry, File, object, load_overrides_file, is_domain, without_domain, without, new_entry,
  add_override, remove_override, trust_verifier, distrust_verifier, checked_add,
}
use mathlib.Core.Path.{fun_ext}

-- What the overrides say about a domain.
pub data Verdict : Type 0 where
  unlisted : Verdict
  trusted : String → Verdict
  distrusted : Verdict

unfoldable pub listed_key : List Entry → String → Option String
listed_key [] d = none
listed_key (e ∷ es) d =
    let rest = listed_key es d in if is_domain d e then some e.public_key else rest

abbrev by_key : Option String → Verdict
by_key none = unlisted
by_key (some key) = trusted key

unfoldable pub verdict : File → String → Verdict
verdict file d =
    let o = load_overrides_file file in
    if contains o.remove d then distrusted else by_key (listed_key o.add d)

-- a function, changed at one domain
abbrev pub update : (String → Verdict) → String → Verdict → String → Verdict
update f domain v d = if domain == d then v else f d

contains-without :
    (x d : String) (ds : List String)
    → contains (without x ds) d ≡ (if x == d then false else contains ds d)
unfolding contains without
contains-without x d [] = ground arith
contains-without x d (y ∷ ys) =
    ground (arith, ==_iff x d, ==_iff y x, ==_iff y d, contains-without x d ys)

contains-append :
    (x d : String) (ds : List String)
    → contains (ds ++ (x ∷ [])) d ≡ (if x == d then true else contains ds d)
unfolding contains
contains-append x d [] = ground arith
contains-append x d (y ∷ ys) = ground (arith, contains-append x d ys)

listed_key-without_domain :
    (x d : String) (es : List Entry)
    → listed_key (without_domain x es) d ≡ (if x == d then none else listed_key es d)
unfolding listed_key without_domain
listed_key-without_domain x d [] = ground arith
listed_key-without_domain x d (e ∷ es) = elim (Option-cases e.domain) [
  | inl unnamed ↦ ground (arith, unnamed, listed_key-without_domain x d es)
  | inr (y, named) ↦ elim (Bool-cases (y == x)) [
    | inl same ↦
        ground
          (arith, named, same, ==_iff y x, ==_iff y d, ==_iff x d, listed_key-without_domain x d es)
    | inr other ↦
        ground (
          arith,
          named,
          other,
          ==_iff y x,
          ==_iff y d,
          ==_iff x d,
          listed_key-without_domain x d es,
        )
  ]
]

listed_key-append :
    (x d key : String) (es : List Entry)
    → listed_key (es ++ (new_entry x key ∷ [])) d
      ≡ elim (listed_key es d) [ some k ↦ some k | none ↦ if x == d then some key else none ]
unfolding listed_key new_entry
listed_key-append x d key [] = ground arith
listed_key-append x d key (e ∷ es) = ground (arith, listed_key-append x d key es)

removed_lem :
    (x d : String) (ds : List String)
    → contains (if contains ds x then without x ds else ds) d
      ≡ (if x == d then false else contains ds d)
removed_lem x d ds = elim (Bool-cases (contains ds x)) [
  | inl listed ↦ ground (arith, listed, contains-without x d ds)
  | inr missing ↦ ground (arith, missing, ==_iff x d)
]

appended_lem :
    (x d : String) (ds : List String)
    → contains (if contains ds x then ds else ds ++ (x ∷ [])) d
      ≡ (if x == d then true else contains ds d)
appended_lem x d ds = elim (Bool-cases (contains ds x)) [
  | inl listed ↦ ground (arith, listed, ==_iff x d)
  | inr missing ↦ ground (arith, missing, contains-append x d ds)
]

verdict-add_override :
    (domain key : String) (file : File)
    → verdict (object (add_override domain key (load_overrides_file file)))
      ≡ update (verdict file) domain (trusted key)
unfolding verdict add_override load_overrides_file
verdict-add_override domain key file = fun_ext λ d.
    let o = load_overrides_file file in
    ground (
      arith,
      removed_lem domain d o.remove,
      listed_key-append domain d key (without_domain domain o.add),
      listed_key-without_domain domain d o.add,
      ==_iff domain d,
    )

verdict-remove_override :
    (domain : String) (file : File)
    → verdict (object (remove_override domain (load_overrides_file file)))
      ≡ update (verdict file) domain distrusted
unfolding verdict remove_override load_overrides_file
verdict-remove_override domain file = fun_ext λ d.
    let o = load_overrides_file file in
    ground (
      arith,
      appended_lem domain d o.remove,
      listed_key-without_domain domain d o.add,
      ==_iff domain d,
    )

-- The commands, with their arguments.
pub data Command : Type 0 where
  trust : List String → Command
  distrust : List String → Command

module _ (decode_b64url : String → Option ℕ) where
  -- the keys of 32 bytes
  abbrev pub is_key : String → Bool
  is_key key = elim (decode_b64url key) [ none ↦ false | some n ↦ code_eq n 32 ]

  unfoldable pub run : List Command → File → File
  run [] file = file
  run (trust args ∷ rest) file = run rest (trust_verifier decode_b64url args file).1
  run (distrust args ∷ rest) file = run rest (distrust_verifier args file).1

  -- What the commands mean for the verdicts.
  unfoldable pub meaning : List Command → (String → Verdict) → String → Verdict
  meaning [] f = f
  meaning (trust [] ∷ rest) f = meaning rest f
  meaning (trust (domain ∷ []) ∷ rest) f = meaning rest f
  meaning (trust (domain ∷ key ∷ more) ∷ rest) f =
      meaning rest (if is_key (strip key) then update f (strip domain) (trusted (strip key)) else f)
  meaning (distrust [] ∷ rest) f = meaning rest f
  meaning (distrust (domain ∷ more) ∷ rest) f = meaning rest (update f (strip domain) distrusted)

  checked_add-verdict :
      (domain key : String) (file : File) (n : Option ℕ)
      → decode_b64url key ≡ n
      → verdict (checked_add decode_b64url domain key file n).1
        ≡ (if is_key key then update (verdict file) domain (trusted key) else verdict file)
  unfolding checked_add
  checked_add-verdict domain key file none e = ground (arith, e)
  checked_add-verdict domain key file (some n) e = elim (Bool-cases (code_eq n 32)) [
    | inl good ↦ ground (arith, e, good, verdict-add_override domain key file)
    | inr bad ↦ ground (arith, e, bad)
  ]

  -- The file of the overrides implements a function from domains to verdicts: after any commands,
  -- whatever the file held before, it says of every domain what the commands mean. Trusting a domain
  -- with a key of 32 bytes makes it trusted with this key, distrusting it makes it distrusted, and
  -- every other command and every other domain change nothing.
  pub verdict-run :
      (commands : List Command) (file : File)
      → verdict (run commands file) ≡ meaning commands (verdict file)
  unfolding run meaning trust_verifier distrust_verifier
  verdict-run [] file = refl
  verdict-run (trust [] ∷ rest) file = verdict-run rest file
  verdict-run (trust (domain ∷ []) ∷ rest) file = verdict-run rest file
  verdict-run (trust (domain ∷ key ∷ more) ∷ rest) file =
      verdict-run rest (trust_verifier decode_b64url (domain ∷ key ∷ more) file).1
      ∙ ap (meaning rest)
          (checked_add-verdict (strip domain) (strip key) file (decode_b64url (strip key)) refl)
  verdict-run (distrust [] ∷ rest) file = verdict-run rest file
  verdict-run (distrust (domain ∷ more) ∷ rest) file =
      verdict-run rest (distrust_verifier (domain ∷ more) file).1
      ∙ ap (meaning rest) (verdict-remove_override (strip domain) file)
