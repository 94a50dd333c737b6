-- ===== src/Base/Exec.antt =====
-- Calls that change a state on the way: what was changed before an error stays changed, so the
-- state comes back with every result.
pub mod Ensures
pub mod Keeps
use Prim.Native.String.{String}
use altinn_k8s_operator.Base.Outcome.{Error, Result, ok, err, crash, wrap}

abbrev pub Exec {ℓ} : Type ℓ → Type ℓ → Type ℓ
Exec S A = S → Result A × S

module _ {ℓ} {S A : Type ℓ} where
  abbrev pub pure : A → Exec S A
  pure a s = (ok a, s)

  -- A call that does not touch the state.
  abbrev pub lift : Result A → Exec S A
  lift r s = (r, s)

module _ {ℓ} {S A B : Type ℓ} where
  abbrev pub continue : Result A → (A → Exec S B) → Exec S B
  continue (crash reason) rest s = (crash reason, s)
  continue (err cause) rest s = (err cause, s)
  continue (ok value) rest s = rest value s

  infixl 5 ◌>>=◌
  -- Shut, so that proofs can take a block apart bind by bind.
  unfoldable pub ◌>>=◌ : Exec S A → (A → Exec S B) → Exec S B
  ◌>>=◌ m f s = continue (m s).0 f (m s).1

  abbrev pub resume : Result A → (Error → Exec S B) → (A → Exec S B) → Exec S B
  resume (ok value) failed rest s = rest value s
  resume (err cause) failed rest s = failed cause s
  resume (crash reason) failed rest s = (crash reason, s)

  -- if err != nil { … }: an error goes to a branch of its own.
  unfoldable pub handle : Exec S A → (Error → Exec S B) → (A → Exec S B) → Exec S B
  handle m failed rest s = resume (m s).0 failed rest (m s).1

module _ {ℓ} {S A : Type ℓ} where
  -- fmt.Errorf("…: %w", err) for the error of a call
  unfoldable pub wrapping : String → Exec S A → Exec S A
  wrapping m call s = let (r, s') = call s in (wrap m r, s')
