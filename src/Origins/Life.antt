-- ===== src/Origins/Life.antt =====
-- The life of one origin record: recorded, attacked, answered once.
use aap_hermes.Prelude.{
  ℕ, ◌≤◌, ◌+◌, String, ◌≡◌, ◌≢◌, ◌∙◌, sym, subst, true, ◌⊎◌, inl, inr, none, some, List, [], ◌∷◌,
  arith, ◌==◌, ==_iff, ==_refl,
}
use aap_hermes.Origins.{
  Calendar, Entry, RequestOrigin, object, text, aware, naive, created, File, writable, asdict,
  Logged, completed, targets, pop_if, record_origin,
}
use aap_hermes.Origins.Decode.{from_dict-asdict, target-asdict}
use aap_hermes.Origins.Prune.{is_live}
use aap_hermes.Origins.View.{live, IsWellFormed, is_free, after_record, taken}
use aap_hermes.Origins.Record.{recorded, record-result, live-recorded, recorded-IsWellFormed}
use aap_hermes.Origins.Pop.{popped, answer, pop_if-result, popped-IsWellFormed, live-popped}

-- A call of `pop_if`: when, for which nonce, from which issuer.
pub record Attempt : Type 0 where
  pub at : ℕ
  pub nonce : String
  pub iss : String

module _ (cal : Calendar) (ttl : ℕ) where
  -- The file that a call leaves; a call that raises leaves it as it was.
  attempt : Attempt → File → File
  attempt a file = elim (pop_if cal ttl a.at writable a.nonce a.iss file) [
    | none ↦ file
    | some (file', o, logs) ↦ file'
  ]

  unfoldable pub attempts : List Attempt → File → File
  unfolding attempt
  attempts [] file = file
  attempts (a ∷ rest) file = attempts rest (attempt a file)

  attempt-eq-popped :
      (a : Attempt) (file : File)
      → IsWellFormed cal ttl file
      → attempt a file ≡ popped cal ttl a.at a.nonce a.iss file
  unfolding attempt
  attempt-eq-popped a file h = rw (pop_if-result cal ttl a.at a.nonce a.iss file h, attempt)

  -- Calls in the order of time, none of which is the answer of `iss` to `nonce`.
  abbrev pub IsForged : String → String → ℕ → ℕ → List Attempt → Type 0
  IsForged nonce iss now later [] = now ≤ later
  IsForged nonce iss now later (a ∷ rest) =
      (now ≤ a.at) × ((a.nonce ≢ nonce) ⊎ (a.iss ≢ iss)) × IsForged nonce iss a.at later rest

  -- The nonce holds the entry for the whole time between the two instants.
  abbrev pub Holds : String → Entry → ℕ → ℕ → File → Type 0
  Holds nonce e now later file = (u : ℕ) → now ≤ u → u ≤ later → live cal ttl u file nonce ≡ some e

  module _ (nonce iss : String) (e : Entry) (only : (i : String) → targets i e ≡ (iss == i)) where
    popped-Holds :
        (now later : ℕ) (a : Attempt) (file : File)
        → now ≤ a.at
        → (a.nonce ≢ nonce) ⊎ (a.iss ≢ iss)
        → Holds nonce e now later file
        → Holds nonce e a.at later (popped cal ttl a.at a.nonce a.iss file)
    unfolding taken
    popped-Holds now later a file n (inl differs) holds u from to = ground (
      arith,
      live-popped cal ttl a.at a.nonce a.iss file u nonce from,
      ==_iff a.nonce nonce,
      holds u,
    )
    popped-Holds now later a file n (inr differs) holds u from to = ground (
      arith,
      live-popped cal ttl a.at a.nonce a.iss file u nonce from,
      ==_iff a.nonce nonce,
      ==_iff iss a.iss,
      only a.iss,
      holds u,
      holds a.at,
    )

    pub attempts-Holds :
        (now later : ℕ) (forged : List Attempt) (file : File)
        → IsForged nonce iss now later forged
        → IsWellFormed cal ttl file
        → Holds nonce e now later file
        → IsWellFormed cal ttl (attempts forged file)
          × (live cal ttl later (attempts forged file) nonce ≡ some e)
    unfolding attempts
    attempts-Holds now later [] file f w holds = (w, holds later f (omega arith))
    attempts-Holds now later (a ∷ rest) file f w holds = rw (attempt-eq-popped a file w) (
        attempts-Holds a.at later rest (popped cal ttl a.at a.nonce a.iss file) f.2
          (popped-IsWellFormed cal ttl a.at a.nonce a.iss file w)
          (popped-Holds now later a file f.0 f.1 holds))

targets-asdict :
    (o : RequestOrigin) (iss : String)
    → o.target_address ≡ text iss
    → (i : String) → targets i (object (asdict o)) ≡ (iss == i)
unfolding targets
targets-asdict o iss h i = ground (arith, target-asdict o)

module _ (cal : Calendar) (ttl now t : ℕ) (nonce iss : String) (o : RequestOrigin)
    (file : File) where
  recorded-Holds :
      (later : ℕ)
      → is_free cal ttl now file nonce ≡ true
      → created cal ttl (object (asdict o)) ≡ aware t
      → later ≤ t + ttl
      → Holds cal ttl nonce (object (asdict o)) now later (recorded cal ttl now nonce o file)
  unfolding after_record is_live
  recorded-Holds later f c l u from to =
      ground (arith, live-recorded cal ttl now nonce o file u nonce from, ==_refl nonce)

  pub pop_if-recorded :
      (later : ℕ) (forged : List Attempt)
      → IsWellFormed cal ttl file
      → is_free cal ttl now file nonce ≡ true
      → created cal ttl (object (asdict o)) ≡ aware t
      → o.target_address ≡ text iss
      → later ≤ t + ttl
      → IsForged cal ttl nonce iss now later forged
      → let before = attempts cal ttl forged (recorded cal ttl now nonce o file) in
        pop_if cal ttl later writable nonce iss before
        ≡ some (popped cal ttl later nonce iss before, some o, completed nonce (some o))
  unfolding answer taken
  pop_if-recorded later forged w f c addressed l attack =
      let before = attempts cal ttl forged (recorded cal ttl now nonce o file) in
      let dated = recorded-IsWellFormed cal ttl now nonce o file w (λ e. cc (c, e)) in
      let kept =
        attempts-Holds cal ttl nonce iss (object (asdict o)) (targets-asdict o iss addressed) now
          later forged (recorded cal ttl now nonce o file) attack dated
          (recorded-Holds later f c l) in
      pop_if-result cal ttl later nonce iss before kept.0
      ∙ ground (arith, kept.1, targets-asdict o iss addressed iss, ==_refl iss, from_dict-asdict o)

  -- What a call of `record` says that it stored.
  pub record-stored :
      (stored : File) (logs : List Logged)
      → IsWellFormed cal ttl file
      → record_origin cal ttl now writable nonce o file ≡ some (stored, true, logs)
      → (is_free cal ttl now file nonce ≡ true) × (recorded cal ttl now nonce o file ≡ stored)
  record-stored stored logs w done =
      let result = record-result cal ttl now nonce o file w in
      (ground (arith, result, done), ground (arith, result, done))

  -- An origin that `record` says it stored is what `pop_if` returns to the peer that the request was
  -- sent to, at any time within the time to live, whatever calls of `pop_if` for other nonces or from
  -- other issuers came between, in whatever number, in the order of time; all writes are taken to
  -- succeed, and no stored time lacks its zone.
  pub pop_if-record :
      (later : ℕ) (forged : List Attempt) (stored : File) (logs : List Logged)
      → IsWellFormed cal ttl file
      → record_origin cal ttl now writable nonce o file ≡ some (stored, true, logs)
      → created cal ttl (object (asdict o)) ≡ aware t
      → o.target_address ≡ text iss
      → later ≤ t + ttl
      → IsForged cal ttl nonce iss now later forged
      → (after : File) × (pop_if cal ttl later writable nonce iss (attempts cal ttl forged stored)
          ≡ some (after, some o, completed nonce (some o)))
  pop_if-record later forged stored logs w done c addressed l attack =
      let (free, same) = record-stored stored logs w done in
      let before = attempts cal ttl forged stored in
      (
        popped cal ttl later nonce iss before,
        subst
            (λ f.
              pop_if cal ttl later writable nonce iss (attempts cal ttl forged f)
              ≡ some (
                popped cal ttl later nonce iss (attempts cal ttl forged f),
                some o,
                completed nonce (some o),
              ))
            same (pop_if-recorded later forged w free c addressed l attack),
      )

-- Any call of the two methods; `store` is one of `record`.
pub data Call : Type 0 where
  pop : Attempt → Call
  store : ℕ → String → RequestOrigin → Call

module _ (cal : Calendar) (ttl : ℕ) where
  -- The file that a call leaves; a call that raises leaves it as it was.
  call : Call → File → File
  unfolding attempt
  call (pop a) file = attempt cal ttl a file
  call (store at nonce o) file = elim (record_origin cal ttl at writable nonce o file) [
    | none ↦ file
    | some (file', fresh, logs) ↦ file'
  ]

  unfoldable pub calls : List Call → File → File
  unfolding call
  calls [] file = file
  calls (c ∷ rest) file = calls rest (call c file)

  -- Calls in the order of time, none of which records the nonce again; what they record has a time
  -- with its zone.
  abbrev pub IsAfter : String → ℕ → ℕ → List Call → Type 0
  IsAfter nonce now later [] = now ≤ later
  IsAfter nonce now later (pop a ∷ rest) = (now ≤ a.at) × IsAfter nonce a.at later rest
  IsAfter nonce now later (store at other o ∷ rest) =
      (now ≤ at)
      × (other ≢ nonce)
      × (created cal ttl (object (asdict o)) ≢ naive)
      × IsAfter nonce at later rest

  -- Nothing is live under the nonce any more.
  abbrev IsGone : String → ℕ → File → Type 0
  IsGone nonce now file = (u : ℕ) → now ≤ u → live cal ttl u file nonce ≡ none

  call-store :
      (at : ℕ) (other : String) (o : RequestOrigin) (file : File)
      → IsWellFormed cal ttl file
      → call (store at other o) file ≡ recorded cal ttl at other o file
  unfolding call
  call-store at other o file w = rw (record-result cal ttl at other o file w, call)

  popped-IsGone :
      (nonce : String) (now : ℕ) (a : Attempt) (file : File)
      → now ≤ a.at
      → IsGone nonce now file
      → IsGone nonce a.at (popped cal ttl a.at a.nonce a.iss file)
  popped-IsGone nonce now a file n gone u from =
      ground (arith, live-popped cal ttl a.at a.nonce a.iss file u nonce from, gone u)

  recorded-IsGone :
      (nonce other : String) (now at : ℕ) (o : RequestOrigin) (file : File)
      → now ≤ at
      → other ≢ nonce
      → IsGone nonce now file
      → IsGone nonce at (recorded cal ttl at other o file)
  unfolding after_record
  recorded-IsGone nonce other now at o file n differs gone u from =
      ground (arith, live-recorded cal ttl at other o file u nonce from, ==_iff other nonce, gone u)

  calls-IsGone :
      (nonce : String) (now later : ℕ) (cs : List Call) (file : File)
      → IsAfter nonce now later cs
      → IsWellFormed cal ttl file
      → IsGone nonce now file
      → IsWellFormed cal ttl (calls cs file) × (live cal ttl later (calls cs file) nonce ≡ none)
  unfolding calls call
  calls-IsGone nonce now later [] file f w gone = (w, gone later f)
  calls-IsGone nonce now later (pop a ∷ rest) file f w gone =
      rw (attempt-eq-popped cal ttl a file w) (
        calls-IsGone nonce a.at later rest (popped cal ttl a.at a.nonce a.iss file) f.1
          (popped-IsWellFormed cal ttl a.at a.nonce a.iss file w)
          (popped-IsGone nonce now a file f.0 gone))
  calls-IsGone nonce now later (store at other o ∷ rest) file (n, differs, dated, f) w gone =
      subst
        (λ g.
          IsWellFormed cal ttl (calls rest g) × (live cal ttl later (calls rest g) nonce ≡ none))
        (sym (call-store at other o file w))
        (calls-IsGone nonce at later rest (recorded cal ttl at other o file) f
          (recorded-IsWellFormed cal ttl at other o file w dated)
          (recorded-IsGone nonce other now at o file n differs gone))

-- Once `pop_if` has returned an origin for a nonce, no later call for that nonce returns one, whoever
-- asks, after any calls of the two methods in the order of time that do not record the nonce again, if
-- the writes succeed and no stored time lacks its zone.
pub pop_if-pop_if :
    (cal : Calendar) (ttl now again : ℕ) (nonce iss other : String) (file after : File)
    (o : RequestOrigin) (logs : List Logged) (between : List Call)
    → IsWellFormed cal ttl file
    → pop_if cal ttl now writable nonce iss file ≡ some (after, some o, logs)
    → IsAfter cal ttl nonce now again between
    → (left : File) × (pop_if cal ttl again writable nonce other (calls cal ttl between after)
        ≡ some (left, none, []))
unfolding answer taken
pop_if-pop_if cal ttl now again nonce iss other file after o logs between w popped_once order =
    let result = pop_if-result cal ttl now nonce iss file w in
    let same : after ≡ popped cal ttl now nonce iss file = ground (arith, result) in
    let (dated, gone) =
      calls-IsGone cal ttl nonce now again between after order
        (rw same (popped-IsWellFormed cal ttl now nonce iss file w))
        (λ u from. ground (
          arith,
          result,
          same,
          live-popped cal ttl now nonce iss file u nonce from,
          ==_refl nonce,
        )) in
    (
      popped cal ttl again nonce other (calls cal ttl between after),
      pop_if-result cal ttl again nonce other (calls cal ttl between after) dated
          ∙ ground (arith, gone),
    )
