-- ===== src/Commands/Discover.antt =====
-- commands.py: `_discover_approve`, `_discover_deny`, `_discover_block` and `_discover_list`, the
-- user's answers to a peer that looks for our agent.
pub mod Answered
use aap_hermes.Prelude.{
  ℕ, String, Bool, true, false, Option, none, some, List, [], ◌∷◌, ◌++◌, ◌==◌, is_some, map,
  if◌then◌else◌,
}
use aap_hermes.Prelude.Text.{is_empty}
use aap_hermes.Prelude.Text.Joined.{concat, join}
use aap_hermes.Prelude.Dict.{Dict, contains, lookup, insert, erase}
use aap_hermes.Adapter.Introductions.{Introduction, IntroductionStore}
use aap_hermes.Adapter.GroupNote.{length, show, is_nil}

pub data Reply : Type 0 where
  usage : Reply
  not_found : String → Reply
  send_failed : String → Reply
  approved : String → String → Reply
  denied : String → Reply
  no_verifiers : Reply
  blocked : List String → List String → ℕ → Reply

-- The verdict on an introduction as it goes to the verifier's relay.
pub record Response : Type 0 where
  pub to : String
  pub verifier_nonce : String
  pub approves : Bool

-- `[r for r in rows if r.searcher == searcher]`
unfoldable pub rows_of : String → List Introduction → List Introduction
rows_of searcher [] = []
rows_of searcher (r ∷ rs) =
    let rest = rows_of searcher rs in if r.searcher == searcher then r ∷ rest else rest

-- The verifiers that take the request, and those that do not.
unfoldable pub accepting : (String → Bool) → List String → List String
accepting posts [] = []
accepting posts (d ∷ ds) = let rest = accepting posts ds in if posts d then d ∷ rest else rest

unfoldable pub rejecting : (String → Bool) → List String → List String
rejecting posts [] = []
rejecting posts (d ∷ ds) = let rest = rejecting posts ds in if posts d then rest else d ∷ rest

module _ (I : IntroductionStore) (relay_of : String → String) (reaches : String → Bool) where
  -- The reply, the responses that the relay took, and the store.
  abbrev pub Outcome : Type 0
  Outcome = Reply × List Response × I.State

  verdict_reply : Bool → Introduction → String → Reply
  verdict_reply approves row nonce = if approves then approved nonce row.searcher else denied nonce

  respond_to : Bool → String → Introduction → I.State → Outcome
  unfolding verdict_reply
  respond_to approves nonce row s =
      let to = relay_of row.verifier_domain in
      if reaches to
      then (
        verdict_reply approves row nonce,
        record { to = to; verifier_nonce = nonce; approves = approves } ∷ [],
        I.resolve nonce s,
      )
      else (send_failed row.verifier_domain, [], s)

  -- `_discover_approve` and `_discover_deny`, for a nonce that is given
  unfoldable pub respond : Bool → String → I.State → Outcome
  unfolding respond_to
  respond approves nonce s = elim (I.get nonce s) [
    | none ↦ (not_found nonce, [], s)
    | some row ↦ respond_to approves nonce row s
  ]

  unfoldable pub discover_approve : List String → I.State → Outcome
  unfolding respond
  discover_approve [] s = (usage, [], s)
  discover_approve (nonce ∷ args) s = respond true nonce s

  unfoldable pub discover_deny : List String → I.State → Outcome
  unfolding respond
  discover_deny [] s = (usage, [], s)
  discover_deny (nonce ∷ args) s = respond false nonce s

-- `sorted` of the set of the verifiers is an argument, and so is the trust list; `posts` says which
-- verifiers take the request.
module _ (I : IntroductionStore) (sorted : List String → List String) (trust_list : List String)
    (posts : String → Bool) where
  unfoldable pub resolve_all : List Introduction → I.State → I.State
  resolve_all [] s = s
  resolve_all (r ∷ rs) s = resolve_all rs (I.resolve r.verifier_nonce s)

  unfoldable pub verifiers_for : List Introduction → List String
  verifiers_for [] = trust_list
  verifiers_for (r ∷ rs) = sorted (map (λ i. i.verifier_domain) (r ∷ rs))

  -- `_discover_block`: the reply, and the store.
  unfoldable pub discover_block : List String → I.State → Reply × I.State
  unfolding resolve_all verifiers_for rows_of accepting rejecting
  discover_block [] s = (usage, s)
  discover_block (searcher ∷ args) s =
      let rows = rows_of searcher (I.rows s) in
      let domains = verifiers_for rows in
      if is_nil domains then (no_verifiers, s) else (
        blocked (accepting posts domains) (rejecting posts domains) (length rows),
        resolve_all rows s,
      )

label_of : Option String → String
unfolding concat
label_of none = ""
label_of (some l) = if is_empty l then "" else (concat (" (" ∷ l ∷ ")" ∷ []))

introduction_line : Introduction → String
unfolding label_of concat
introduction_line r =
    let label = label_of r.searcher_label in
    (concat (
      "  • " ∷ r.verifier_nonce ∷ " — " ∷ r.searcher ∷ label ∷ " via " ∷ r.verifier_domain
      ∷ " (expires " ∷ r.expires_at ∷ ")" ∷ []))

-- `_discover_list`
unfoldable pub discover_list : List Introduction → String
unfolding introduction_line concat join show
discover_list [] = "No pending discovery introductions."
discover_list (r ∷ rs) = join "\n" (
    (concat ("Pending introductions (" ∷ show (length (r ∷ rs)) ∷ "):" ∷ []))
    ∷ map introduction_line (r ∷ rs))
