-- ===== src/Base/Outcome.antt =====
-- What a Go call can come back with: a value, an error value, or not at all, because it panicked
-- or an assertion ended the process (assert.AssertWith calls log.Fatalln).
use Prim.Native.String.{String}
use mathlib.Core.Path.{◌≡◌, refl}
use mathlib.Core.Bool.{Bool, true, false}

-- An error by its message and arguments, or by the cause that it wraps.
pub data Error : Type 0 where
  message : String → Error
  formatted : String → String → Error
  wrapped : String → Error → Error

pub data Result {ℓ} (A : Type ℓ) : Type ℓ where
  ok : A → Result A
  err : Error → Result A
  crash : String → Result A

-- The rest of a chain runs on the value of its first part; an error or a crash ends the chain.
-- `abbrev`, so that a bind of a known result computes wherever it stands.
module _ {ℓ κ} {A : Type ℓ} {B : Type κ} where
  infixl 5 ◌>>=◌
  abbrev pub ◌>>=◌ : Result A → (A → Result B) → Result B
  crash reason >>= rest = crash reason
  err cause >>= rest = err cause
  ok value >>= rest = rest value

  -- A chain that succeeds has a first part that does, and a rest that does on its value.
  pub >>=-eq-ok :
      {b : B} (r : Result A) (rest : A → Result B)
      → (r >>= rest) ≡ ok b
      → (a : A) × (r ≡ ok a) × (rest a ≡ ok b)
  >>=-eq-ok (crash reason) rest e = cc
  >>=-eq-ok (err cause) rest e = cc
  >>=-eq-ok (ok value) rest e = (value, refl, e)

-- A step without a value, before the rest.
infixl 5 ◌>>◌
abbrev pub ◌>>◌ {ℓ} : {A : Type ℓ} → Result (Unit {0}) → Result A → Result A
first >> rest = first >>= (λ done. rest)

-- if cond { return err }
abbrev pub fail_if : Bool → Error → Result (Unit {0})
fail_if true e = err e
fail_if false e = ok tt

-- errors.WrapPrefix
abbrev pub wrap {ℓ} : {A : Type ℓ} → String → Result A → Result A
wrap m (ok a) = ok a
wrap m (err e) = err (wrapped m e)
wrap m (crash c) = crash c

pub ok_injective {ℓ} : {A : Type ℓ} {a b : A} → ok a ≡ ok b → a ≡ b
ok_injective e = cc

pub wrap_ok {ℓ} : {A : Type ℓ} (m : String) (r : Result A) (a : A) → wrap m r ≡ ok a → r ≡ ok a
wrap_ok m (ok b) a e = e
wrap_ok m (err x) a e = cc
wrap_ok m (crash c) a e = cc
