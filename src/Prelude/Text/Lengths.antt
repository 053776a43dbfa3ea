-- ===== src/Prelude/Text/Lengths.antt =====
-- The lengths of texts under the text operations.
use Prim.Native.Nat.{ℕ, zero, suc, ◌+◌, ◌≤◌}
use Prim.Native.Char.{Char}
use Prim.Native.String.{String, [], ◌∷◌}
use mathlib.Core.Path.{◌≡◌, refl}
use native.Mathlib.Omega.{arith}
use aap_hermes.Prelude.Text.{
  ◌<>◌, rstrip, take_text, text_length, is_empty, is_space, cons_unless_blank,
}
use aap_hermes.Prelude.Tests.{if◌then◌else◌}
use mathlib.Core.Bool.{Bool, true, false}

pub text_length-append : (s t : String) → text_length (s <> t) ≡ text_length s + text_length t
unfolding ◌<>◌
text_length-append [] t = omega arith
text_length-append (c ∷ s) t = omega (arith, text_length-append s t)

text_length-blank : (blank : Bool) (c : Char) → text_length (if blank then [] else c ∷ []) ≤ 1
text_length-blank true c = omega arith
text_length-blank false c = omega arith

text_length-cons_unless_blank :
    (c : Char) (t : String) → text_length (cons_unless_blank c t) ≤ text_length t + 1
text_length-cons_unless_blank c [] = omega (arith, text_length-blank (is_space c) c)
text_length-cons_unless_blank c (d ∷ t) = omega arith

pub text_length-rstrip : (s : String) → text_length (rstrip s) ≤ text_length s
unfolding rstrip
text_length-rstrip [] = omega arith
text_length-rstrip (c ∷ s) =
    omega (arith, text_length-rstrip s, text_length-cons_unless_blank c (rstrip s))

pub text_length-take_text : (n : ℕ) (s : String) → text_length (take_text n s) ≤ n
unfolding take_text
text_length-take_text zero s = omega arith
text_length-take_text (suc n) [] = omega arith
text_length-take_text (suc n) (c ∷ s) = omega (arith, text_length-take_text n s)

pub is_empty-append : (s t : String) → is_empty t ≡ false → is_empty (s <> t) ≡ false
unfolding ◌<>◌
is_empty-append [] t h = h
is_empty-append (c ∷ s) t h = refl
