-- ===== src/Adapter/Noise.antt =====
-- adapter.py: the texts that are never sent to a peer, `_is_gateway_status_noise` and
-- `_is_no_reply`, with their regular expressions as matchers that return what follows a match.
use Prim.Native.Char.{Char, code}
use aap_hermes.Prelude.{
  ◌>>=◌, ℕ, zero, suc, ◌+◌, ◌-◌, String, Bool, true, false, Option, none, some, List, [], ◌∷◌, ◌&&◌,
  ◌||◌, leb, is_some, if◌then◌else◌,
}
use aap_hermes.Prelude.Text.{
  code_eq, is_empty, is_space, lstrip, strip, starts_with, text_length, take_text, drop_text,
}

-- Under `re.IGNORECASE` a character is compared by this code; the four letters outside ASCII are
-- those that match an ASCII one.
abbrev fold_code : Char → ℕ
fold_code c =
    let n = code c in
    if leb 65 n && leb n 90
    then n + 32
    else if code_eq n 304 || code_eq n 305
    then 105
    else if code_eq n 383
    then 115
    else if code_eq n 8490
    then 107
    else n

-- a literal, in any case; the pattern is in lower case
unfoldable pub literal : String → String → Option String
literal String.[] s = some s
literal (String.◌∷◌ p ps) String.[] = none
literal (String.◌∷◌ p ps) (String.◌∷◌ c s) =
    if code_eq (code p) (fold_code c) then literal ps s else none

first_is_blank : String → Bool
first_is_blank String.[] = false
first_is_blank (String.◌∷◌ c s) = is_space c

-- `\s+` before a character that is no blank
unfoldable pub blanks : String → Option String
unfolding first_is_blank is_space lstrip
blanks s = if first_is_blank s then some (lstrip s) else none

-- the words of a pattern, with `\s+` between them
unfoldable pub words : List String → String → Option String
unfolding literal blanks
words [] s = some s
words (w ∷ []) s = literal w s
words (w ∷ v ∷ rest) s = do after ← literal w s; next ← blanks after; words (v ∷ rest) next

unfoldable pub any_of : List (List String) → String → Bool
unfolding words
any_of [] s = false
any_of (p ∷ rest) s = is_some (words p s) || any_of rest s

-- `x?`
abbrev pub optional : String → String → String
optional p s = elim (literal p s) [ none ↦ s | some rest ↦ rest ]

-- an emoji, the variation selector if it may follow, blanks, and one of the phrases
unfoldable pub notice : String → String → List (List String) → String → Bool
unfolding any_of
notice emoji selector phrases s =
    elim (do after ← literal emoji s; blanks (optional selector after)) [
      | none ↦ false
      | some rest ↦ any_of phrases rest
    ]

-- `_STATUS_NOISE_RE.match`
unfoldable pub is_gateway_status_noise : String → Bool
unfolding notice
is_gateway_status_noise content =
    let s = lstrip content in
    notice "⏳" "" (("still" ∷ "working" ∷ []) ∷ ("retrying" ∷ "in" ∷ []) ∷ []) s
    || notice "⚠" "\u{fe0f}"
        (("no" ∷ "response" ∷ "from" ∷ "provider" ∷ [])
          ∷ ("empty/malformed" ∷ "response" ∷ [])
          ∷ ("max" ∷ "retries" ∷ [])
          ∷ ("rate" ∷ "limited" ∷ [])
          ∷ ("request" ∷ "payload" ∷ "too" ∷ "large" ∷ [])
          ∷ ("non-retryable" ∷ "error" ∷ [])
          ∷ [])
        s
    || notice "🗜" "\u{fe0f}" (("compressed" ∷ []) ∷ ("context" ∷ "too" ∷ "large" ∷ []) ∷ []) s
    || notice "❌" ""
        (("max" ∷ "retries" ∷ []) ∷ ("api" ∷ "failed" ∷ []) ∷ ("rate" ∷ "limited" ∷ []) ∷ []) s

-- `[_\s-]*`
separators : String → String
separators String.[] = String.[]
separators (String.◌∷◌ c s) =
    let rest = separators s in
    if is_space c || code_eq (code c) 95 || code_eq (code c) 45 then rest else String.◌∷◌ c s

-- `_NO_REPLY_PATTERN` at the head of a text
unfoldable pub sentinel : String → Option String
unfolding literal separators lstrip is_space
sentinel s = do
  opened ← literal "[" s
  after_no ← literal "no" (lstrip opened)
  after_reply ← literal "reply" (separators after_no)
  literal "]" (lstrip after_reply)

-- `pattern.search(s)`
unfoldable pub has_sentinel : String → Bool
unfolding sentinel
has_sentinel String.[] = is_some (sentinel String.[])
has_sentinel (String.◌∷◌ c s) = is_some (sentinel (String.◌∷◌ c s)) || has_sentinel s

-- `pattern.sub("", s)`, with the number of characters of a match that are still to be dropped
without_sentinel : ℕ → String → String
without_sentinel n String.[] = String.[]
without_sentinel (suc n) (String.◌∷◌ c s) = without_sentinel n s
without_sentinel zero (String.◌∷◌ c s) =
    let found = sentinel (String.◌∷◌ c s) in
    let skip : ℕ = elim found [ none ↦ 0 | some rest ↦ text_length s - text_length rest ] in
    let tail = without_sentinel skip s in if is_some found then tail else String.◌∷◌ c tail

-- `str.lower` of one character, by its code, as far as a comparison with ASCII text can tell
abbrev lower_code : Char → ℕ
lower_code c =
    let n = code c in if leb 65 n && leb n 90 then n + 32 else if code_eq n 8490 then 107 else n

lowered_prefix : String → String → Bool
lowered_prefix String.[] s = true
lowered_prefix (String.◌∷◌ p ps) String.[] = false
lowered_prefix (String.◌∷◌ p ps) (String.◌∷◌ c s) =
    code_eq (code p) (lower_code c) && lowered_prefix ps s

-- `phrase in s.lower()`
unfoldable pub in_lowered : String → String → Bool
unfolding lowered_prefix
in_lowered phrase String.[] = lowered_prefix phrase String.[]
in_lowered phrase (String.◌∷◌ c s) = lowered_prefix phrase (String.◌∷◌ c s) || in_lowered phrase s

any_in_lowered : List String → String → Bool
any_in_lowered [] s = false
any_in_lowered (p ∷ rest) s = in_lowered p s || any_in_lowered rest s

abbrev pub meta_phrases : List String
meta_phrases =
    "no reply" ∷ "thread idle" ∷ "thread is idle" ∷ "closing" ∷ "awaiting" ∷ "no further"
    ∷ "not a substantive" ∷ "thinking-only" ∷ []

-- the last character has this code
unfoldable pub ends_with : ℕ → String → Bool
ends_with n String.[] = false
ends_with n (String.◌∷◌ c String.[]) = code_eq (code c) n
ends_with n (String.◌∷◌ c (String.◌∷◌ d s)) = ends_with n (String.◌∷◌ d s)

-- A text between parentheses that holds one of the phrases.
unfoldable pub is_meta_comment : String → Bool
unfolding any_in_lowered in_lowered ends_with starts_with drop_text take_text
is_meta_comment stripped =
    starts_with stripped "("
    && ends_with b')' stripped
    && any_in_lowered meta_phrases (drop_text 1 (take_text (text_length stripped - 1) stripped))

unfoldable pub is_no_reply : String → Bool
unfolding has_sentinel without_sentinel is_meta_comment
is_no_reply s =
    let stripped = strip s in
    is_empty stripped
    || (has_sentinel stripped && is_empty (strip (without_sentinel 0 stripped)))
    || is_meta_comment stripped
