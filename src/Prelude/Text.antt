-- ===== src/Prelude/Text.antt =====
-- Python's operations on `str` that the program uses, on the characters of a text.
pub mod Laws
pub mod Lengths
pub mod Joined
use Prim.Native.Nat.{ℕ, pred, compare, Ordering}
use Prim.Native.Char.{Char, code}
use Prim.Native.String.{String, [], ◌∷◌}
use mathlib.Core.Bool.{Bool, true, false, ◌&&◌, ◌||◌}
use aap_hermes.Prelude.Tests.{leb, if◌then◌else◌}

abbrev pub code_eq : ℕ → ℕ → Bool
code_eq a b = elim (compare a b) [ Ordering.eq ↦ true | _ ↦ false ]

-- `s + t`
infixr 60 ◌<>◌
unfoldable pub ◌<>◌ : String → String → String
[] <> t = t
(c ∷ s) <> t = c ∷ (s <> t)

-- `str.isspace` of one character, which `str.strip` and the `\s` of `re` test.
unfoldable pub is_space : Char → Bool
is_space c =
    let n = code c in
    (leb 9 n && leb n 13)
    || (leb 28 n && leb n 32)
    || code_eq n 133
    || code_eq n 160
    || code_eq n 5760
    || (leb 8192 n && leb n 8202)
    || code_eq n 8232
    || code_eq n 8233
    || code_eq n 8239
    || code_eq n 8287
    || code_eq n 12288

unfoldable pub lstrip : String → String
unfolding is_space
lstrip [] = []
lstrip (c ∷ s) = let rest = lstrip s in if is_space c then rest else c ∷ s

abbrev pub cons_unless_blank : Char → String → String
cons_unless_blank c [] = if is_space c then [] else c ∷ []
cons_unless_blank c (d ∷ s) = c ∷ d ∷ s

unfoldable pub rstrip : String → String
unfolding is_space
rstrip [] = []
rstrip (c ∷ s) = cons_unless_blank c (rstrip s)

unfoldable pub strip : String → String
unfolding lstrip rstrip
strip s = rstrip (lstrip s)

abbrev pub is_empty : String → Bool
is_empty [] = true
is_empty (c ∷ s) = false

-- `s.startswith(prefix)`
unfoldable pub starts_with : String → String → Bool
starts_with s [] = true
starts_with [] (d ∷ p) = false
starts_with (c ∷ s) (d ∷ p) = code_eq (code c) (code d) && starts_with s p

-- `s[n:]`
unfoldable pub drop_text : ℕ → String → String
drop_text ℕ.zero s = s
drop_text (ℕ.suc n) [] = []
drop_text (ℕ.suc n) (c ∷ s) = drop_text n s

-- `s[:n]`
unfoldable pub take_text : ℕ → String → String
take_text ℕ.zero s = []
take_text (ℕ.suc n) [] = []
take_text (ℕ.suc n) (c ∷ s) = c ∷ take_text n s

-- `len(s)`
abbrev pub text_length : String → ℕ
text_length [] = 0
text_length (c ∷ s) = ℕ.suc (text_length s)

-- The text before the first character of the given code, and the text from it on.
unfoldable pub before : ℕ → String → String
before n [] = []
before n (c ∷ s) = let rest = before n s in if code_eq (code c) n then [] else c ∷ rest

unfoldable pub from : ℕ → String → String
from n [] = []
from n (c ∷ s) = let rest = from n s in if code_eq (code c) n then c ∷ s else rest

-- `s.replace(old, new)`, with the number of characters of a match that are still to be skipped.
replace_from : ℕ → String → String → String → String
replace_from n old new [] = []
replace_from (ℕ.suc n) old new (c ∷ s) = replace_from n old new s
replace_from ℕ.zero old new (c ∷ s) =
    let hit = starts_with (c ∷ s) old in
    let rest = replace_from (if hit then pred (text_length old) else 0) old new s in
    if hit then new <> rest else c ∷ rest

unfoldable pub replace : String → String → String → String
unfolding replace_from starts_with ◌<>◌
replace old new s = replace_from 0 old new s
