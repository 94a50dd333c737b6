-- ===== src/Caching/Get.antt =====
-- One call of `Get`: when it fetches, what it returns, and what an error leaves behind.
use altinn_k8s_operator.Base.{
  ◌≡◌, Bool, false, ◌&&◌, ◌||◌, ◌⊎◌, Option, Error, ok, err, arith, if◌then◌else◌,
}
use altinn_k8s_operator.Base.Exec.{Exec}
use altinn_k8s_operator.Base.Int.{pos, ◌≤ℤ◌}
use altinn_k8s_operator.Time.{Time, sub, is_zero}
use altinn_k8s_operator.Caching.{CachedAtom, read_section, write_section, get, expired}

-- An instant is no time after itself.
sub_self : (t : Time) → sub t t ≡ pos 0
unfolding sub
sub_self t = ground arith

-- The value is missing or too old at both readings of the clock.
abbrev pub must_fetch {ℓ} : {T : Type ℓ} → CachedAtom T → Time → Time → Bool
must_fetch c now now' = (is_zero c.current_fetched_at || expired c now) && expired c now'

module _ {ℓ} {T W : Type ℓ} (retriever : Exec W (Option T)) (c : CachedAtom T) (now now' : Time)
    (w : W) where
  -- The retriever is called once if the value is missing or too old at both readings of the
  -- clock, and not at all otherwise.
  pub get-retriever :
      (get retriever c now now' w).2 ≡ (if must_fetch c now now' then (retriever w).1 else w)
  unfolding get read_section write_section
  get-retriever = ground arith

  -- A value that `Get` returns is the cached one, and at one of the two readings it is no older
  -- than `expire_after`, provided that this is not negative.
  pub get-fresh :
      (v : Option T)
      → pos 0 ≤ℤ c.expire_after
      → (get retriever c now now' w).0 ≡ ok v
      → (((get retriever c now now' w).1).current ≡ v)
        × ((expired (get retriever c now now' w).1 now ≡ false)
            ⊎ (expired (get retriever c now now' w).1 now' ≡ false))
  unfolding get read_section write_section
  get-fresh v h e = ground (arith, sub_self now')

  -- When `Get` returns an error, the cache is as it was.
  pub get-error :
      (e : Error) → (get retriever c now now' w).0 ≡ err e → (get retriever c now now' w).1 ≡ c
  unfolding get read_section write_section
  get-error e h = ground arith
