-- ===== src/Base/Same.antt =====
-- Comparisons that give the equation they find, for concrete codecs that know one value.
use Prim.Native.Nat.{ℕ}
use Prim.Native.String.{String}
use mathlib.Core.Path.{◌≡◌, refl}
use mathlib.Core.Bool.{Bool, true, false}
use mathlib.Core.Option.{Option, none, some}
use mathlib.Core.List.{List, [], ◌∷◌}
use native.Mathlib.Omega.{arith}
use text.Mathlib.Text.{◌==◌}
use text.Mathlib.TextEquality.{eq_iff}
use altinn_k8s_operator.Base.Tests.{nat_eq}

-- The proof that two values are the same, where a comparison finds one.
abbrev pub Same : {A : Type 0} → A → A → Type 0
Same a b = Option (a ≡ b)

module _ {A B : Type 0} where
  infixl 5 ◌>>=◌
  abbrev pub ◌>>=◌ : Option A → (A → Option B) → Option B
  none >>= f = none
  some a >>= f = f a

pub nat_eq-path : (a b : ℕ) → nat_eq a b ≡ true → a ≡ b
nat_eq-path a b e = ground arith

-- What a test proves, if it comes out true.
abbrev pub tested : {P : Type 0} → (b : Bool) → (b ≡ true → P) → Option P
tested true proof = some (proof refl)
tested false proof = none

abbrev pub same_nat : (a b : ℕ) → Same a b
same_nat a b = tested (nat_eq a b) (nat_eq-path a b)

abbrev pub same_text : (a b : String) → Same a b
same_text a b = tested (a == b) (eq_iff a b).0

abbrev pub same_list : {A : Type 0} → ((a b : A) → Same a b) → (xs ys : List A) → Same xs ys
same_list same [] [] = some refl
same_list same (x ∷ xs) (y ∷ ys) = do p ← same x y; q ← same_list same xs ys; some (λ i. p i ∷ q i)
same_list same _ _ = none

abbrev pub same_option : {A : Type 0} → ((a b : A) → Same a b) → (x y : Option A) → Same x y
same_option same none none = some refl
same_option same (some a) (some b) = do p ← same a b; some (λ i. some (p i))
same_option same _ _ = none
