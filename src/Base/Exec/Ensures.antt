-- ===== src/Base/Exec/Ensures.antt =====
-- What a call has done when it returns a value, with one rule for each way to build a call.
use Prim.Native.String.{String}
use mathlib.Core.Path.{◌≡◌, refl, ap, sym, subst₂}
use altinn_k8s_operator.Base.Outcome.{Error, Result, ok, err, crash, wrap_ok, ok_injective}
use altinn_k8s_operator.Base.Exec.{Exec, pure, lift, continue, ◌>>=◌, handle, resume, wrapping}

pub record Ensures {S A : Type 0} (m : Exec S A) (s : S) (Q : A → S → Type 0) : Type 0 where
  pub returns : (a : A) (s' : S) → m s ≡ (ok a, s') → Q a s'

module _ {S A : Type 0} where
  pub Ensures-pure : (a : A) (s : S) (Q : A → S → Type 0) → Q a s → Ensures (pure a) s Q
  Ensures-pure a s Q h = record {
    returns = λ b s' e. subst₂ Q (ok_injective (ap (λ p. p.0) e)) (ap (λ p. p.1) e) h;
  }

  pub Ensures-lift : (r : Result A) (s : S) → Ensures (lift r) s (λ a s'. (r ≡ ok a) × (s' ≡ s))
  Ensures-lift r s = record { returns = λ a s' e. (ap (λ p. p.0) e, sym (ap (λ p. p.1) e)) }

  -- A call that is taken as it is.
  pub Ensures-self : (m : Exec S A) (s : S) → Ensures m s (λ a s'. m s ≡ (ok a, s'))
  Ensures-self m s = record { returns = λ a s' e. e }

module _ {S A B : Type 0} where
  Ensures-continue :
      (p : Result A × S) (f : A → Exec S B) (s : S) {P : A → S → Type 0} {Q : B → S → Type 0}
      → ((a : A) (s' : S) → p ≡ (ok a, s') → P a s')
      → ((a : A) (s₁ : S) → P a s₁ → Ensures (f a) s₁ Q)
      → (b : B) (s' : S) → continue p.0 f p.1 ≡ (ok b, s')
      → Q b s'
  Ensures-continue (ok a, s₁) f s first rest b s' e = (rest a s₁ (first a s₁ refl)).returns b s' e
  Ensures-continue (err x, s₁) f s first rest b s' e = cc
  Ensures-continue (crash m, s₁) f s first rest b s' e = cc

  pub Ensures-bind :
      (m : Exec S A) (f : A → Exec S B) (s : S) {P : A → S → Type 0} {Q : B → S → Type 0}
      → Ensures m s P
      → ((a : A) (s₁ : S) → P a s₁ → Ensures (f a) s₁ Q)
      → Ensures (m >>= f) s Q
  unfolding ◌>>=◌
  Ensures-bind m f s first rest = record {
    returns = λ b s' e. Ensures-continue (m s) f s first.returns rest b s' e;
  }

module _ {S A : Type 0} where
  pub Ensures-weaken :
      (m : Exec S A) (s : S) {P Q : A → S → Type 0}
      → Ensures m s P
      → ((a : A) (s' : S) → P a s' → Q a s')
      → Ensures m s Q
  Ensures-weaken m s h k = record { returns = λ a s' e. k a s' (h.returns a s' e) }

  pub Ensures-wrapping :
      (prefix : String) (m : Exec S A) (s : S) {Q : A → S → Type 0}
      → Ensures m s Q
      → Ensures (wrapping prefix m) s Q
  unfolding wrapping
  Ensures-wrapping prefix m s h = record {
    returns = λ a s' e.
        h.returns a s' (λ i. (wrap_ok prefix (m s).0 a (ap (λ p. p.0) e) i, ap (λ p. p.1) e i));
  }

module _ {S A B : Type 0} where
  Ensures-resume :
      (p : Result A × S) (failed : Error → Exec S B) (rest : A → Exec S B) {P : A → S → Type 0}
      {Q : B → S → Type 0}
      → ((a : A) (s' : S) → p ≡ (ok a, s') → P a s')
      → ((e : Error) → Ensures (failed e) p.1 Q)
      → ((a : A) (s₁ : S) → P a s₁ → Ensures (rest a) s₁ Q)
      → (b : B) (s' : S) → resume p.0 failed rest p.1 ≡ (ok b, s')
      → Q b s'
  Ensures-resume (ok a, s₁) failed rest first other next b s' e =
      (next a s₁ (first a s₁ refl)).returns b s' e
  Ensures-resume (err x, s₁) failed rest first other next b s' e = (other x).returns b s' e
  Ensures-resume (crash m, s₁) failed rest first other next b s' e = cc

  -- An error leads to the branch of its own.
  pub Ensures-handle :
      (m : Exec S A) (failed : Error → Exec S B) (rest : A → Exec S B) (s : S) {P : A → S → Type 0}
      {Q : B → S → Type 0}
      → Ensures m s P
      → ((e : Error) (s₁ : S) → Ensures (failed e) s₁ Q)
      → ((a : A) (s₁ : S) → P a s₁ → Ensures (rest a) s₁ Q)
      → Ensures (handle m failed rest) s Q
  unfolding handle
  Ensures-handle m failed rest s first other next = record {
    returns =
        λ b s' e. Ensures-resume (m s) failed rest first.returns (λ x. other x (m s).1) next b s' e;
  }
