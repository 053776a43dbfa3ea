-- ===== src/Origins/Prune.antt =====
-- service_request_origins.py: which entries `_prune` keeps.
use aap_hermes.Prelude.{
  ℕ, ◌≤◌, ◌+◌, String, ◌≡◌, refl, ◌≢◌, Bool, true, false, none, some, [], ◌∷◌, arith, ◌==◌, ==_iff,
  ltb, if◌then◌else◌,
}
use aap_hermes.Prelude.Dict.{Dict, lookup, insert, erase}
use aap_hermes.Origins.{Calendar, Entry, Stamp, invalid, naive, aware, created, prune}

abbrev fresh : ℕ → ℕ → Stamp → Bool
fresh ttl now invalid = false
fresh ttl now naive = false
fresh ttl now (aware t) = if ltb (t + ttl) now then false else true

module _ (cal : Calendar) (ttl : ℕ) where
  -- The entry was created within the time to live.
  unfoldable pub is_live : ℕ → Entry → Bool
  is_live now e = fresh ttl now (created cal ttl e)

  -- The entries that a prune at this time keeps.
  unfoldable pub kept : ℕ → Dict Entry → Dict Entry
  kept now [] = []
  kept now ((n, e) ∷ d) = let rest = kept now d in if is_live now e then (n, e) ∷ rest else rest

  -- Every stamp that can be read names its zone, so that no comparison raises.
  abbrev pub IsDated : Dict Entry → Type 0
  IsDated [] = Unit {0}
  IsDated ((n, e) ∷ d) = (created cal ttl e ≢ naive) × IsDated d

  pub prune-kept : (now : ℕ) (d : Dict Entry) → IsDated d → prune cal ttl now d ≡ some (kept now d)
  unfolding prune kept is_live
  prune-kept now [] h = refl
  prune-kept now ((n, e) ∷ d) h = ground (arith, prune-kept now d h.1, h.0)

  pub kept-IsDated : (now : ℕ) (d : Dict Entry) → IsDated d → IsDated (kept now d)
  unfolding kept
  kept-IsDated now [] h = tt
  kept-IsDated now ((n, e) ∷ d) h = ground (arith, kept-IsDated now d h.1)

  pub insert-IsDated :
      (k : String) (e : Entry) (d : Dict Entry)
      → created cal ttl e ≢ naive
      → IsDated d
      → IsDated (insert k e d)
  unfolding insert
  insert-IsDated k e [] c h = (c, tt)
  insert-IsDated k e ((j, w) ∷ d) c h = ground (arith, insert-IsDated k e d c h.1)

  pub erase-IsDated : (k : String) (d : Dict Entry) → IsDated d → IsDated (erase k d)
  unfolding erase
  erase-IsDated k [] h = tt
  erase-IsDated k ((j, w) ∷ d) h = ground (arith, erase-IsDated k d h.1)

  is_live_mono :
      (now later : ℕ) (e : Entry) → now ≤ later → is_live later e ≡ true → is_live now e ≡ true
  unfolding is_live
  is_live_mono now later e h l = ground arith

  pub kept-kept :
      (now later : ℕ) (d : Dict Entry) → now ≤ later → kept later (kept now d) ≡ kept later d
  unfolding kept
  kept-kept now later [] h = refl
  kept-kept now later ((n, e) ∷ d) h =
      ground (arith, kept-kept now later d h, is_live_mono now later e h)

  lookup-kept_absent :
      (now : ℕ) (k : String) (d : Dict Entry) → lookup k d ≡ none → lookup k (kept now d) ≡ none
  unfolding kept lookup
  lookup-kept_absent now k [] h = refl
  lookup-kept_absent now k ((n, e) ∷ d) h = ground (arith, lookup-kept_absent now k d)

  -- A new key: afterwards it holds its entry for as long as that is live.
  pub lookup-kept-insert :
      (now : ℕ) (k j : String) (e : Entry) (d : Dict Entry)
      → lookup k d ≡ none
      → lookup j (kept now (insert k e d))
        ≡ (if k == j then (if is_live now e then some e else none) else lookup j (kept now d))
  unfolding kept lookup insert
  lookup-kept-insert now k j e [] h = ground arith
  lookup-kept-insert now k j e ((i, w) ∷ d) h =
      ground (arith, lookup-kept-insert now k j e d, ==_iff i k, ==_iff i j, ==_iff k j)

  pub lookup-kept-erase :
      (now : ℕ) (k j : String) (d : Dict Entry)
      → lookup j (kept now (erase k d)) ≡ (if k == j then none else lookup j (kept now d))
  unfolding kept lookup erase
  lookup-kept-erase now k j [] = ground arith
  lookup-kept-erase now k j ((i, w) ∷ d) =
      ground (arith, lookup-kept-erase now k j d, ==_iff i k, ==_iff i j, ==_iff k j)
