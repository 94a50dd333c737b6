-- ===== src/Base/Text/Decimal.antt =====
-- strconv.Atoi and the %d of fmt, for Go's int of 64 bits.
pub mod RoundTrip
use Prim.Native.Char.{Char, code}
use Prim.Native.Nat.{ℕ, zero, suc, ◌+◌, ◌-◌, ◌*◌, ◌/◌, ◌%◌, ◌^◌, ◌<◌, ◌≤◌}
use Prim.Native.String.{String, ◌++◌ as ◌<>◌}
use mathlib.Core.Path.{◌≡◌, refl, ◌∙◌}
use mathlib.Core.Bool.{Bool, true, false, ◌&&◌}
use mathlib.Core.Option.{Option, none, some}
use native.Mathlib.Omega.{arith}
use altinn_k8s_operator.Base.Tests.{ltb, leb, nat_eq, if◌then◌else◌}
use altinn_k8s_operator.Base.Int.{ℤ, pos, negsuc}

abbrev pub max_int : ℕ
max_int = 2 ^ 63 - 1

digit : ℕ → Char
digit zero = "0"
digit (suc zero) = "1"
digit (suc (suc zero)) = "2"
digit (suc (suc (suc zero))) = "3"
digit (suc (suc (suc (suc zero)))) = "4"
digit (suc (suc (suc (suc (suc zero))))) = "5"
digit (suc (suc (suc (suc (suc (suc zero)))))) = "6"
digit (suc (suc (suc (suc (suc (suc (suc zero))))))) = "7"
digit (suc (suc (suc (suc (suc (suc (suc (suc zero)))))))) = "8"
digit _ = "9"

-- The decimal digits of a number below ten to the power of the fuel.
unfoldable pub digits : ℕ → ℕ → String
unfolding digit
digits zero n = ""
digits (suc f) n =
    let front = digits f (n / 10) in
    if ltb n 10 then String.◌∷◌ (digit n) "" else front <> String.◌∷◌ (digit (n % 10)) ""

-- %d of an int: nineteen digits hold every int of 64 bits.
unfoldable pub format_int : ℤ → String
format_int (pos n) = digits 19 n
format_int (negsuc n) = "-" <> digits 19 (n + 1)

scan : ℕ → String → Option ℕ
scan n String.[] = some n
scan n (String.◌∷◌ c s) =
    let rest = scan (n * 10 + (code c - b'0')) s in
    if leb b'0' (code c) && leb (code c) b'9' then rest else none

-- The digits after the sign, of which there is at least one.
unsigned : String → Option ℕ
unfolding scan
unsigned String.[] = none
unsigned (String.◌∷◌ c s) = scan 0 (String.◌∷◌ c s)

abbrev in_range : Bool → Option ℕ → Option ℤ
in_range minus none = none
in_range false (some n) = if leb n max_int then some (pos n) else none
in_range true (some zero) = some (pos 0)
in_range true (some (suc n)) = if leb n max_int then some (negsuc n) else none

unfoldable pub atoi : String → Option ℤ
unfolding unsigned
atoi String.[] = none
atoi (String.◌∷◌ c s) =
    if nat_eq (code c) b'-'
    then in_range true (unsigned s)
    else if nat_eq (code c) b'+'
    then in_range false (unsigned s)
    else in_range false (unsigned (String.◌∷◌ c s))

-- index + 1 on an int of 64 bits, which wraps around.
unfoldable pub successor : ℤ → ℤ
successor (pos n) = if ltb n max_int then pos (n + 1) else negsuc max_int
successor (negsuc zero) = pos 0
successor (negsuc (suc n)) = negsuc n

atoi_test :
    (atoi "-0042" ≡ some (negsuc 41)) × (atoi "9223372036854775808" ≡ none) × (atoi "1x" ≡ none)
unfolding atoi
atoi_test = (refl, refl, refl)

format_int_test : (format_int (negsuc 119) ≡ "-120") × (format_int (pos 9007) ≡ "9007")
unfolding format_int digits
format_int_test = (refl, refl)
