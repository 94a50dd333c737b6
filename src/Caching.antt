-- ===== src/Caching.antt =====
-- internal/caching/cached_atom.go: one cached value behind a read-write lock. `Get` has two
-- critical sections; each is a function here, and between the two of one call other calls may run.
pub mod Get
pub mod Interleaving
mod Examples
use altinn_k8s_operator.Base.{
  ℕ, Bool, true, false, ◌||◌, Option, none, some, Result, ok, err, crash, if◌then◌else◌,
}
use altinn_k8s_operator.Base.Exec.{Exec}
use altinn_k8s_operator.Base.Int.{ℤ, ltb_ℤ}
use altinn_k8s_operator.Time.{Time, Duration, is_zero, sub}

-- The pointer `current` is `none` while nothing was fetched.
pub record CachedAtom {ℓ} (T : Type ℓ) : Type ℓ where
  pub current : Option T
  pub current_fetched_at : Time
  pub expire_after : Duration

module _ {ℓ} {T : Type ℓ} where
  unfoldable pub new_cached_atom : Duration → CachedAtom T
  new_cached_atom d = record { current = none; current_fetched_at = 0; expire_after = d }

  abbrev pub expired : CachedAtom T → Time → Bool
  expired c now = ltb_ℤ c.expire_after (sub now c.current_fetched_at)

  -- The section under the read lock: the value, or `none` if the call must take the write lock.
  unfoldable pub read_section : CachedAtom T → Time → Option (Option T)
  read_section c now =
      if is_zero c.current_fetched_at || expired c now then none else some c.current

  abbrev pub store : CachedAtom T → Time → Result (Option T) → Result (Option T) × CachedAtom T
  store c now (ok value) = (ok value, record c { current = value; current_fetched_at = now })
  store c now (err e) = (err e, c)
  store c now (crash m) = (crash m, c)

module _ {ℓ} {T W : Type ℓ} where
  -- The section under the write lock, with the retriever as an action on the world.
  unfoldable pub write_section :
      Exec W (Option T) → CachedAtom T → Time → W → Result (Option T) × CachedAtom T × W
  write_section retriever c now w =
      if expired c now
      then (let (r, w') = retriever w in let (result, c') = store c now r in (result, c', w'))
      else (ok c.current, c, w)

  -- A call of `Get` with no other call between its sections. It reads the clock once in each.
  unfoldable pub get :
      Exec W (Option T) → CachedAtom T → Time → Time → W → Result (Option T) × CachedAtom T × W
  get retriever c now now' w = elim (read_section c now) [
    | some value ↦ (ok value, c, w)
    | none ↦ write_section retriever c now' w
  ]
