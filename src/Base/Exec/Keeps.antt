-- ===== src/Base/Exec/Keeps.antt =====
-- What a call keeps of the state, whatever it returns, with a fact on a value that it returns.
use Prim.Native.String.{String}
use mathlib.Core.Path.{◌≡◌, refl, subst}
use altinn_k8s_operator.Base.Outcome.{Error, Result, ok, err, crash, wrap_ok, ok_injective}
use altinn_k8s_operator.Base.Exec.{Exec, pure, lift, continue, ◌>>=◌, handle, resume, wrapping}

pub record Keeps {S A : Type 0} (I : S → Type 0) (m : Exec S A) (Q : A → Type 0) : Type 0 where
  pub kept : (s : S) → I s → I (m s).1
  pub result : (s : S) → I s → (a : A) → (m s).0 ≡ ok a → Q a

module _ {S A : Type 0} (I : S → Type 0) where
  pub Keeps-pure : (a : A) (Q : A → Type 0) → Q a → Keeps I (pure a) Q
  Keeps-pure a Q h = record { kept = λ s i. i; result = λ s i b e. subst Q (ok_injective e) h }

  pub Keeps-lift : (r : Result A) → Keeps I (lift r) (λ a. r ≡ ok a)
  Keeps-lift r = record { kept = λ s i. i; result = λ s i a e. e }

  pub Keeps-weaken :
      (m : Exec S A) {P Q : A → Type 0} → Keeps I m P → ((a : A) → P a → Q a) → Keeps I m Q
  Keeps-weaken m h k = record { kept = h.kept; result = λ s i a e. k a (h.result s i a e) }

  -- A call that keeps the invariant, whatever it returns.
  pub Keeps-any : (m : Exec S A) → ((s : S) → I s → I (m s).1) → Keeps I m (λ a. Unit {0})
  Keeps-any m h = record { kept = h; result = λ s i a e. tt }

  pub Keeps-wrapping :
      (prefix : String) (m : Exec S A) {Q : A → Type 0}
      → Keeps I m Q
      → Keeps I (wrapping prefix m) Q
  unfolding wrapping
  Keeps-wrapping prefix m h = record {
    kept = h.kept;
    result = λ s i a e. h.result s i a (wrap_ok prefix (m s).0 a e);
  }

module _ {S A B : Type 0} (I : S → Type 0) where
  continue-kept :
      (r : Result A) (f : A → Exec S B) (s : S) {P : A → Type 0} {Q : B → Type 0}
      → I s
      → ((a : A) → r ≡ ok a → P a)
      → ((a : A) → P a → Keeps I (f a) Q)
      → I (continue r f s).1 × ((b : B) → (continue r f s).0 ≡ ok b → Q b)
  continue-kept (ok a) f s i first rest =
      let next = rest a (first a refl) in (next.kept s i, next.result s i)
  continue-kept (err x) f s i first rest = (i, λ b e. absurd (let stuck = e in cc))
  continue-kept (crash m) f s i first rest = (i, λ b e. absurd (let stuck = e in cc))

  pub Keeps-bind :
      (m : Exec S A) (f : A → Exec S B) {P : A → Type 0} {Q : B → Type 0}
      → Keeps I m P
      → ((a : A) → P a → Keeps I (f a) Q)
      → Keeps I (m >>= f) Q
  unfolding ◌>>=◌
  Keeps-bind m f first rest = record {
    kept = λ s i. (continue-kept (m s).0 f (m s).1 (first.kept s i) (first.result s i) rest).0;
    result = λ s i. (continue-kept (m s).0 f (m s).1 (first.kept s i) (first.result s i) rest).1;
  }

  -- The rest keeps the invariant on whatever value.
  pub Keeps-then :
      (m : Exec S A) (f : A → Exec S B) {Q : B → Type 0}
      → Keeps I m (λ a. Unit {0})
      → ((a : A) → Keeps I (f a) Q)
      → Keeps I (m >>= f) Q
  Keeps-then m f first rest = Keeps-bind m f first (λ a h. rest a)

  resume-kept :
      (r : Result A) (failed : Error → Exec S B) (rest : A → Exec S B) (s : S) {P : A → Type 0}
      {Q : B → Type 0}
      → I s
      → ((a : A) → r ≡ ok a → P a)
      → ((e : Error) → Keeps I (failed e) Q)
      → ((a : A) → P a → Keeps I (rest a) Q)
      → I (resume r failed rest s).1 × ((b : B) → (resume r failed rest s).0 ≡ ok b → Q b)
  resume-kept (ok a) failed rest s i first other next =
      let keeps = next a (first a refl) in (keeps.kept s i, keeps.result s i)
  resume-kept (err x) failed rest s i first other next = ((other x).kept s i, (other x).result s i)
  resume-kept (crash m) failed rest s i first other next = (i, λ b e. absurd (let stuck = e in cc))

  pub Keeps-handle :
      (m : Exec S A) (failed : Error → Exec S B) (rest : A → Exec S B) {P : A → Type 0}
      {Q : B → Type 0}
      → Keeps I m P
      → ((e : Error) → Keeps I (failed e) Q)
      → ((a : A) → P a → Keeps I (rest a) Q)
      → Keeps I (handle m failed rest) Q
  unfolding handle
  Keeps-handle m failed rest first other next = record {
    kept = λ s i.
        (resume-kept (m s).0 failed rest (m s).1 (first.kept s i) (first.result s i) other next).0;
    result = λ s i.
        (resume-kept (m s).0 failed rest (m s).1 (first.kept s i) (first.result s i) other next).1;
  }
