-- ===== src/HomeContexts/Latest.antt =====
-- mirror.py: to which group the user's reply goes after a group's message was recorded.
use aap_hermes.Prelude.{
  ℕ, zero, suc, ◌+◌, ◌-◌, ◌≤◌, ◌<◌, String, ◌≡◌, refl, ap, ◌∙◌, true, false, Option, none, some,
  List, [], ◌∷◌, ◌++◌, arith, ==_iff, if◌then◌else◌, inl, inr, Option-cases,
}
use aap_hermes.Prelude.Text.{is_empty, strip, starts_with, take_text}
use aap_hermes.HomeContexts.{
  GroupHomeContext, File, contexts, missing, no_object, Item, encode, encode_all, decode, recent,
  load, length, drop, last_twenty, others, save, record_group_home_context, matches, latest,
  home_reply, ttl,
}

-- All were recorded before a time.
abbrev pub AllBefore : ℕ → List GroupHomeContext → Type 0
AllBefore t [] = Unit {0}
AllBefore t (c ∷ cs) = (c.recorded_at < t) × AllBefore t cs

others-AllBefore :
    (t : ℕ) (new : GroupHomeContext) (cs : List GroupHomeContext)
    → AllBefore t cs
    → AllBefore t (others new cs)
unfolding others
others-AllBefore t new [] h = tt
others-AllBefore t new (c ∷ cs) h = ground (arith, others-AllBefore t new cs h.1)

drop-AllBefore : (t n : ℕ) (cs : List GroupHomeContext) → AllBefore t cs → AllBefore t (drop n cs)
unfolding drop
drop-AllBefore t zero cs h = h
drop-AllBefore t (suc n) [] h = tt
drop-AllBefore t (suc n) (c ∷ cs) h = drop-AllBefore t n cs h.1

matches-AllBefore :
    (t : ℕ) (p k : String) (cs : List GroupHomeContext)
    → AllBefore t cs
    → AllBefore t (matches p k cs)
unfolding matches
matches-AllBefore t p k [] h = tt
matches-AllBefore t p k (c ∷ cs) h = ground (arith, matches-AllBefore t p k cs h.1)

recent_again-AllBefore :
    (t now : ℕ) (cs : List GroupHomeContext)
    → AllBefore t cs
    → AllBefore t (recent now (encode_all cs))
unfolding recent encode_all decode encode
recent_again-AllBefore t now [] h = tt
recent_again-AllBefore t now (c ∷ cs) h = ground (arith, recent_again-AllBefore t now cs h.1)

latest-append :
    (cs : List GroupHomeContext) (new : GroupHomeContext)
    → AllBefore new.recorded_at cs
    → latest (cs ++ new ∷ []) ≡ some new
unfolding latest
latest-append [] new h = refl
latest-append (c ∷ cs) new h = ground (arith, latest-append cs new h.1)

matches-append :
    (p k : String) (cs : List GroupHomeContext) (new : GroupHomeContext)
    → new.platform ≡ p
    → new.chat_id ≡ k
    → matches p k (cs ++ new ∷ []) ≡ matches p k cs ++ new ∷ []
unfolding matches
matches-append p k [] new h i = ground (arith, ==_iff new.platform p, ==_iff new.chat_id k)
matches-append p k (c ∷ cs) new h i = ground (arith, matches-append p k cs new h i)

drop-append :
    (n : ℕ) (cs : List GroupHomeContext) (new : GroupHomeContext)
    → n ≤ length cs
    → drop n (cs ++ new ∷ []) ≡ drop n cs ++ new ∷ []
unfolding drop
drop-append zero cs new h = refl
drop-append (suc n) [] new h = absurd (omega arith)
drop-append (suc n) (c ∷ cs) new h = drop-append n cs new (omega arith)

length-append :
    (cs : List GroupHomeContext) (new : GroupHomeContext)
    → length (cs ++ new ∷ []) ≡ suc (length cs)
length-append [] new = refl
length-append (c ∷ cs) new = ap suc (length-append cs new)

length-drop : (n : ℕ) (cs : List GroupHomeContext) → length (drop n cs) ≡ length cs - n
unfolding drop
length-drop zero cs = omega arith
length-drop (suc n) [] = omega arith
length-drop (suc n) (c ∷ cs) = length-drop n cs ∙ omega arith

-- a context as it is read again
abbrev pub reread : GroupHomeContext → GroupHomeContext
reread c = record c {
  group_label = if is_empty c.group_label then c.conversation_id else c.group_label;
}

last_twenty-append :
    (cs : List GroupHomeContext) (new : GroupHomeContext)
    → last_twenty (cs ++ new ∷ []) ≡ drop (suc (length cs) - 20) cs ++ new ∷ []
unfolding last_twenty
last_twenty-append cs new =
    ap (λ n. drop (n - 20) (cs ++ new ∷ [])) (length-append cs new)
    ∙ drop-append (suc (length cs) - 20) cs new (omega arith)

recent-append :
    (now : ℕ) (cs : List GroupHomeContext) (new : GroupHomeContext)
    → now ≤ new.recorded_at + ttl
    → recent now (encode_all (cs ++ new ∷ [])) ≡ recent now (encode_all cs) ++ reread new ∷ []
unfolding recent encode_all decode encode
recent-append now [] new h = ground arith
recent-append now (c ∷ cs) new h = ground (arith, recent-append now cs new h)

-- the context that `record_group_home_context` stores
abbrev pub clipped : GroupHomeContext → GroupHomeContext
clipped new = record new { text_preview = take_text 240 new.text_preview }

-- the older contexts that it keeps
abbrev kept : GroupHomeContext → List GroupHomeContext → List GroupHomeContext
kept new cs = drop (suc (length (others new cs)) - 20) (others new cs)

record_lem :
    (now : ℕ) (new : GroupHomeContext) (file : File) (cs : List GroupHomeContext)
    → is_empty new.conversation_id ≡ false
    → load now file ≡ some cs
    → record_group_home_context now true new file
      ≡ some (contexts (encode_all (kept new cs ++ clipped new ∷ [])))
unfolding record_group_home_context save
record_lem now new file cs e l = ground (arith, last_twenty-append (others new cs) (clipped new))

raised_lem :
    (now : ℕ) (new : GroupHomeContext) (file : File)
    → is_empty new.conversation_id ≡ false
    → load now file ≡ none
    → record_group_home_context now true new file ≡ none
unfolding record_group_home_context
raised_lem now new file e raised = ground arith

latest_lem :
    (later : ℕ) (new : GroupHomeContext) (cs : List GroupHomeContext)
    → AllBefore new.recorded_at cs
    → later ≤ new.recorded_at + ttl
    → latest (
        matches new.platform new.chat_id
          (recent later (encode_all (kept new cs ++ clipped new ∷ []))))
      ≡ some (reread (clipped new))
latest_lem later new cs before fresh =
    let p = new.platform in
    let k = new.chat_id in
    let older = recent later (encode_all (kept new cs)) in
    ap (λ x. latest (matches p k x)) (recent-append later (kept new cs) (clipped new) fresh)
    ∙ ap latest (matches-append p k older (reread (clipped new)) refl refl)
    ∙ latest-append (matches p k older) (reread (clipped new)) (
        matches-AllBefore new.recorded_at p k older (
          recent_again-AllBefore new.recorded_at later (kept new cs) (
            drop-AllBefore new.recorded_at (suc (length (others new cs)) - 20) (others new cs)
              (others-AllBefore new.recorded_at new cs before))))

-- After a group's message was recorded for a home chat, a reply of the user in that chat goes to
-- that group, if it comes within the time to live, is not blank and is no command, the write
-- succeeds, and the contexts that were stored before are older.
pub home_reply-record_group_home_context :
    (now later : ℕ) (new : GroupHomeContext) (text : String) (file after : File)
    (cs : List GroupHomeContext)
    → is_empty new.conversation_id ≡ false
    → is_empty new.platform ≡ false
    → is_empty new.chat_id ≡ false
    → is_empty (strip text) ≡ false
    → starts_with (strip text) "/aap" ≡ false
    → load now file ≡ some cs
    → AllBefore new.recorded_at cs
    → later ≤ new.recorded_at + ttl
    → record_group_home_context now true new file ≡ some after
    → home_reply later true text new.platform new.chat_id after
      ≡ some (some (reread (clipped new), strip text))
unfolding home_reply load
home_reply-record_group_home_context now later new text file after cs e p k t a l before fresh
      wrote =
    ground
      (arith, record_lem now new file cs e l, latest_lem later new cs before fresh, e, p, k, t, a)

abbrev pub items_count : List (Option Item) → ℕ
items_count [] = 0
items_count (item ∷ rest) = suc (items_count rest)

count-encode_all : (cs : List GroupHomeContext) → items_count (encode_all cs) ≡ length cs
unfolding encode_all
count-encode_all [] = refl
count-encode_all (c ∷ cs) = ap suc (count-encode_all cs)

few :
    (new : GroupHomeContext) (cs : List GroupHomeContext)
    → items_count (encode_all (kept new cs ++ clipped new ∷ [])) ≤ 20
few new cs =
    let older = others new cs in
    let n = suc (length older) - 20 in
    let total =
      count-encode_all (drop n older ++ clipped new ∷ [])
      ∙ length-append (drop n older) (clipped new)
      ∙ ap suc (length-drop n older) in
    ground (arith, total)

abbrev pub count : File → ℕ
count missing = 0
count no_object = 0
count (contexts items) = items_count items

-- A successful record leaves at most twenty contexts in the file, whatever it held.
pub count-record_group_home_context :
    (now : ℕ) (new : GroupHomeContext) (file after : File)
    → is_empty new.conversation_id ≡ false
    → record_group_home_context now true new file ≡ some after
    → count after ≤ 20
unfolding load
count-record_group_home_context now new file after e wrote = elim (Option-cases (load now file)) [
  | inl raised ↦ ground (arith, raised_lem now new file e raised)
  | inr (cs, l) ↦ ground (arith, record_lem now new file cs e l, few new cs)
]
