-- ===== src/Prelude/Text/Laws.antt =====
-- Laws of the text operations.
use Prim.Native.Nat.{ℕ}
use Prim.Native.Char.{code}
use Prim.Native.String.{String, [], ◌∷◌}
use mathlib.Core.Path.{◌≡◌, refl, ap}
use mathlib.Core.Bool.{Bool, true, not, ◌&&◌}
use native.Mathlib.Omega.{arith}
use aap_hermes.Prelude.Text.{◌<>◌, starts_with, code_eq, before, from}

pub append-nil : (s : String) → s <> "" ≡ s
unfolding ◌<>◌
append-nil [] = refl
append-nil (c ∷ s) = ap (λ t. c ∷ t) (append-nil s)

pub append_assoc : (s t u : String) → (s <> t) <> u ≡ s <> t <> u
unfolding ◌<>◌
append_assoc [] t u = refl
append_assoc (c ∷ s) t u = ap (λ v. c ∷ v) (append_assoc s t u)

pub starts_with-append : (p s : String) → starts_with (p <> s) p ≡ true
unfolding starts_with ◌<>◌
starts_with-append [] [] = refl
starts_with-append [] (c ∷ s) = refl
starts_with-append (c ∷ p) s = ground (arith, starts_with-append p s)

-- The text has no character of the given code.
unfoldable pub lacks : ℕ → String → Bool
lacks n [] = true
lacks n (c ∷ s) = not (code_eq (code c) n) && lacks n s

-- A text without the character, followed by one that begins with it, is cut exactly there.
pub before-append :
    (n : ℕ) (s t : String) → lacks n s ≡ true → before n t ≡ "" → before n (s <> t) ≡ s
unfolding before lacks ◌<>◌
before-append n [] t h e = e
before-append n (c ∷ s) t h e = ground (arith, before-append n s t)

pub from-append : (n : ℕ) (s t : String) → lacks n s ≡ true → from n t ≡ t → from n (s <> t) ≡ t
unfolding from lacks ◌<>◌
from-append n [] t h e = e
from-append n (c ∷ s) t h e = ground (arith, from-append n s t)
