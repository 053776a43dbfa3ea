-- ===== src/Prelude/Text/Joined.antt =====
-- Texts put together from parts: f-strings and `str.join`.
use Prim.Native.String.{String}
use mathlib.Core.List.{List, [], ◌∷◌}
use aap_hermes.Prelude.Text.{◌<>◌}

-- The parts of an f-string, one after the other.
unfoldable pub concat : List String → String
unfolding ◌<>◌
concat [] = ""
concat (s ∷ rest) = s <> concat rest

-- `sep.join(parts)`
unfoldable pub join : String → List String → String
unfolding ◌<>◌
join sep [] = ""
join sep (s ∷ []) = s
join sep (s ∷ t ∷ rest) = s <> (sep <> join sep (t ∷ rest))
