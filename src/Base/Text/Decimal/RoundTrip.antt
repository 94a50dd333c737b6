-- ===== src/Base/Text/Decimal/RoundTrip.antt =====
-- What is printed by %d is read back by Atoi, and has no separator in it.
use Prim.Native.Char.{Char, code}
use Prim.Native.Nat.{ℕ, zero, suc, ◌+◌, ◌-◌, ◌*◌, ◌/◌, ◌%◌, ◌^◌, ◌<◌, ◌≤◌}
use Prim.Native.String.{String, ◌++◌ as ◌<>◌}
use native.Mathlib.Nat.{pow-suc}
use mathlib.Core.Path.{◌≡◌, refl, ap, ◌∙◌}
use mathlib.Core.Logic.{◌≢◌, inl, inr}
use mathlib.Core.Option.{Option, none, some}
use mathlib.Core.Bool.{Bool, true, false}
use native.Mathlib.Omega.{arith}
use text.Mathlib.TextLemmas.{nil-append, cons-append, cons-ne-nil, append-ne-nil_of_right_ne-nil}
use altinn_k8s_operator.Base.Tests.{ltb, Bool-cases}
use altinn_k8s_operator.Base.Text.Split.{Lacks}
use altinn_k8s_operator.Base.Int.{ℤ, pos, negsuc}
use altinn_k8s_operator.Base.Text.Decimal.{
  digit, digits, scan, unsigned, atoi, in_range, successor, format_int, max_int,
}

code-digit : (d : ℕ) → d < 10 → code (digit d) ≡ b'0' + d
unfolding digit
code-digit zero h = refl
code-digit (suc zero) h = refl
code-digit (suc (suc zero)) h = refl
code-digit (suc (suc (suc zero))) h = refl
code-digit (suc (suc (suc (suc zero)))) h = refl
code-digit (suc (suc (suc (suc (suc zero))))) h = refl
code-digit (suc (suc (suc (suc (suc (suc zero)))))) h = refl
code-digit (suc (suc (suc (suc (suc (suc (suc zero))))))) h = refl
code-digit (suc (suc (suc (suc (suc (suc (suc (suc zero)))))))) h = refl
code-digit (suc (suc (suc (suc (suc (suc (suc (suc (suc zero))))))))) h = refl
code-digit (suc (suc (suc (suc (suc (suc (suc (suc (suc (suc n)))))))))) h = absurd (omega arith)

abbrev then_scan : Option ℕ → String → Option ℕ
then_scan none t = none
then_scan (some m) t = scan m t

scan-append : (s t : String) (n : ℕ) → scan n (s <> t) ≡ then_scan (scan n s) t
unfolding scan
scan-append String.[] t n = rw (nil-append t)
scan-append (String.◌∷◌ c s) t n =
    rw (cons-append c s t) (ground (arith, scan-append s t (n * 10 + (code c - b'0'))))

scan-digit : (d n : ℕ) → d < 10 → scan n (String.◌∷◌ (digit d) "") ≡ some (n * 10 + d)
unfolding scan
scan-digit d n h = ground (arith, code-digit d h)

div_lt_pow : (f n : ℕ) → n < 10 ^ suc f → n / 10 < 10 ^ f
div_lt_pow f n h = omega (arith, pow-suc 10 f)

scan-digits : (f n : ℕ) → n < 10 ^ f → scan 0 (digits f n) ≡ some n
unfolding digits
scan-digits zero n h = unfold scan in ground arith
scan-digits (suc f) n h = elim (Bool-cases (ltb n 10)) [
  | inl small ↦ rw small (scan-digit n 0 (ground arith) ∙ ap some (omega arith))
  | inr large ↦
      rw (large, scan-append, scan-digits f (n / 10) (div_lt_pow f n h))
        (scan-digit (n % 10) (n / 10) (omega arith) ∙ ap some (omega arith))
]

-- Every character is a digit.
abbrev AllDigits : String → Type 0
AllDigits String.[] = Unit
AllDigits (String.◌∷◌ c s) = ((b'0' ≤ code c) × (code c ≤ b'9')) × AllDigits s

AllDigits-append : (s t : String) → AllDigits s → AllDigits t → AllDigits (s <> t)
AllDigits-append String.[] t hs ht = rw (nil-append t) ht
AllDigits-append (String.◌∷◌ c s) t hs ht =
    rw (cons-append c s t) (hs.0, AllDigits-append s t hs.1 ht)

digit-AllDigits : (d : ℕ) → d < 10 → AllDigits (String.◌∷◌ (digit d) "")
digit-AllDigits d h = ((omega (arith, code-digit d h), omega (arith, code-digit d h)), tt)

digits-AllDigits : (f n : ℕ) → AllDigits (digits f n)
unfolding digits
digits-AllDigits zero n = tt
digits-AllDigits (suc f) n = elim (Bool-cases (ltb n 10)) [
  | inl small ↦ rw small (digit-AllDigits n (ground arith))
  | inr large ↦ rw large (
      AllDigits-append (digits f (n / 10)) _ (digits-AllDigits f (n / 10))
        (digit-AllDigits (n % 10) (omega arith)))
]

-- A separator that is no digit does not occur among digits.
AllDigits-Lacks : (d : ℕ) → (d < b'0') → (s : String) → AllDigits s → Lacks d s
AllDigits-Lacks d h String.[] a = tt
AllDigits-Lacks d h (String.◌∷◌ c s) a = (omega arith, AllDigits-Lacks d h s a.1)

append-ne-nil : (s t : String) (c : Char) → s <> String.◌∷◌ c t ≢ ""
append-ne-nil s t c e = append-ne-nil_of_right_ne-nil s (cons-ne-nil c t) e

digits-ne-nil : (f n : ℕ) → digits (suc f) n ≢ ""
unfolding digits
digits-ne-nil f n e = elim (Bool-cases (ltb n 10)) [
  | inl small ↦ cons-ne-nil (digit n) "" (rw small at e)
  | inr large ↦ append-ne-nil (digits f (n / 10)) "" (digit (n % 10)) (rw large at e)
]

atoi_of_digits : (s : String) → s ≢ "" → AllDigits s → atoi s ≡ in_range false (scan 0 s)
unfolding atoi
atoi_of_digits String.[] h a = absurd (h refl)
atoi_of_digits (String.◌∷◌ c s) h a = ground arith

unsigned_of_digits : (s : String) → s ≢ "" → unsigned s ≡ scan 0 s
unfolding unsigned
unsigned_of_digits String.[] h = absurd (h refl)
unsigned_of_digits (String.◌∷◌ c s) h = refl

atoi_minus : (s : String) → atoi ("-" <> s) ≡ in_range true (unsigned s)
atoi_minus s = rw (cons-append "-" "" s, nil-append) (unfold atoi in refl)

-- The range of Go's int.
abbrev pub IsInt : ℤ → Type 0
IsInt (pos n) = n ≤ max_int
IsInt (negsuc n) = n ≤ max_int

pub atoi-format_int : (z : ℤ) → IsInt z → atoi (format_int z) ≡ some z
unfolding format_int
atoi-format_int (pos n) h =
    rw
      (
        atoi_of_digits (digits 19 n) (digits-ne-nil 18 n) (digits-AllDigits 19 n),
        scan-digits 19 n (omega arith),
      )
      (ground arith)
atoi-format_int (negsuc n) h =
    rw
      (
        atoi_minus (digits 19 (n + 1)),
        unsigned_of_digits (digits 19 (n + 1)) (digits-ne-nil 18 (n + 1)),
        scan-digits 19 (n + 1) (omega arith),
      )
      (let e : n + 1 ≡ suc n = omega arith in rw e (ground arith))

pub format_int-Lacks : (z : ℤ) → Lacks b'.' (format_int z)
unfolding format_int
format_int-Lacks (pos n) = AllDigits-Lacks b'.' (omega arith) (digits 19 n) (digits-AllDigits 19 n)
format_int-Lacks (negsuc n) =
    rw (cons-append "-" "" (digits 19 (n + 1)), nil-append)
      (
        omega arith,
        AllDigits-Lacks b'.' (omega arith) (digits 19 (n + 1)) (digits-AllDigits 19 (n + 1)),
      )

-- What Atoi reads is an int, and so is the next index.
in_range-IsInt : (minus : Bool) (o : Option ℕ) (z : ℤ) → in_range minus o ≡ some z → IsInt z
in_range-IsInt minus none z h = cc
in_range-IsInt false (some n) z h = ground arith
in_range-IsInt true (some zero) z h = ground arith
in_range-IsInt true (some (suc n)) z h = ground arith

pub atoi-IsInt : (s : String) (z : ℤ) → atoi s ≡ some z → IsInt z
unfolding atoi
atoi-IsInt String.[] z h = cc
atoi-IsInt (String.◌∷◌ c s) z h = ground (
  arith,
  in_range-IsInt true (unsigned s) z,
  in_range-IsInt false (unsigned s) z,
  in_range-IsInt false (unsigned (String.◌∷◌ c s)) z,
)

pub successor-IsInt : (z : ℤ) → IsInt z → IsInt (successor z)
unfolding successor
successor-IsInt (pos n) h = ground arith
successor-IsInt (negsuc zero) h = ground arith
successor-IsInt (negsuc (suc n)) h = ground arith
