-- ===== src/Caching/Interleaving.antt =====
-- Any number of goroutines in `Get`: their critical sections, in any order, at any readings of
-- the clock, and with any results of the retriever.
use altinn_k8s_operator.Base.{◌≡◌, true, Option, none, Result, ok, err, crash, List, [], ◌∷◌, arith}
use altinn_k8s_operator.Base.Exec.{Exec}
use altinn_k8s_operator.Base.Int.{ltb_ℤ}
use altinn_k8s_operator.Time.{Time, Duration, sub}
use altinn_k8s_operator.Caching.{CachedAtom, new_cached_atom, write_section}

-- The successful fetches so far, the newest first, with the reading at which each was stored.
abbrev pub Fetches : Type 0 → Type 0
Fetches T = List (Time × Option T)

pub record Shared (T : Type 0) : Type 0 where
  pub atom : CachedAtom T
  pub fetches : Fetches T

module _ {T : Type 0} where
  -- A retriever that comes back with `r`, and keeps the record of fetches.
  abbrev pub recording : Time → Result (Option T) → Exec (Fetches T) (Option T)
  recording now (ok v) fs = (ok v, (now, v) ∷ fs)
  recording now (err e) fs = (err e, fs)
  recording now (crash m) fs = (crash m, fs)

  unfoldable pub locked : Time → Result (Option T) → Shared T → Shared T
  locked now r s =
      let (_, c, fs) = write_section (recording now r) s.atom now s.fetches in
      record { atom = c; fetches = fs }

  -- The first section changes nothing; the second may fetch.
  pub data Step (s u : Shared T) : Type 0 where
    reading : (now : Time) → u ≡ s → Step s u
    writing : (now : Time) (r : Result (Option T)) → u ≡ locked now r s → Step s u

  pub data Reach (s : Shared T) : Shared T → Type 0 where
    here : Reach s s
    next : {t u : Shared T} → Reach s t → Step t u → Reach s u

  unfoldable pub start : Duration → Shared T
  unfolding new_cached_atom
  start d = record { atom = new_cached_atom d; fetches = [] }

  -- Each fetch was stored more than `d` after the one before it.
  abbrev pub Spaced : Duration → Fetches T → Type 0
  Spaced d [] = Unit
  Spaced d ((t, v) ∷ []) = Unit
  Spaced d ((t, v) ∷ (u, x) ∷ fs) = (ltb_ℤ d (sub t u) ≡ true) × Spaced d ((u, x) ∷ fs)

  -- The cache holds the newest fetch.
  abbrev pub HoldsNewest : CachedAtom T → Fetches T → Type 0
  HoldsNewest c [] = (c.current ≡ none) × (c.current_fetched_at ≡ 0)
  HoldsNewest c ((t, v) ∷ fs) = (c.current ≡ v) × (c.current_fetched_at ≡ t)

  pub record IsConsistent (d : Duration) (s : Shared T) : Type 0 where
    pub expires : s.atom.expire_after ≡ d
    pub newest : HoldsNewest s.atom s.fetches
    pub spaced : Spaced d s.fetches

  IsConsistent-start : (d : Duration) → IsConsistent d (start d)
  unfolding start
  IsConsistent-start d = ground arith

  locked-IsConsistent :
      (d : Duration) (now : Time) (r : Result (Option T)) (c : CachedAtom T) (fs : Fetches T)
      → IsConsistent d (record { atom = c; fetches = fs })
      → IsConsistent d (locked now r (record { atom = c; fetches = fs }))
  unfolding locked write_section
  locked-IsConsistent d now (ok v) c [] h = ground arith
  locked-IsConsistent d now (ok v) c ((t, x) ∷ fs) h = ground arith
  locked-IsConsistent d now (err e) c fs h = ground arith
  locked-IsConsistent d now (crash m) c fs h = ground arith

  Step-IsConsistent :
      {s u : Shared T} (d : Duration) → Step s u → IsConsistent d s → IsConsistent d u
  Step-IsConsistent d (reading now e) h = rw e h
  Step-IsConsistent {s} d (writing now r e) h =
      rw e (locked-IsConsistent d now r s.atom s.fetches h)

  -- However the calls interleave, the cache holds the newest successful fetch, and two successful
  -- fetches are more than `expire_after` apart.
  pub Reach-IsConsistent : (d : Duration) {s : Shared T} → Reach (start d) s → IsConsistent d s
  Reach-IsConsistent d here = IsConsistent-start d
  Reach-IsConsistent d (next r st) = Step-IsConsistent d st (Reach-IsConsistent d r)
