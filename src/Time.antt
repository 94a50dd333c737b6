-- ===== src/Time.antt =====
-- Instants and durations of Go's time package. An instant is its distance in nanoseconds from
-- the zero time (1 January of year 1), a duration is an int of 64 bits.
use altinn_k8s_operator.Base.{ℕ, ◌*◌, Bool, leb, ltb, nat_eq, if◌then◌else◌}
use altinn_k8s_operator.Base.Int.{ℤ, pos, negsuc, sub_ℕ}
use altinn_k8s_operator.Base.Text.Decimal.{max_int}

abbrev pub Time : Type 0
Time = ℕ

abbrev pub Duration : Type 0
Duration = ℤ

abbrev pub second : ℕ
second = 1_000_000_000

abbrev pub minute : ℕ
minute = 60 * second

abbrev pub hour : ℕ
hour = 60 * minute

-- t.IsZero()
abbrev pub is_zero : Time → Bool
is_zero t = nat_eq t 0

-- t.After(u)
abbrev pub is_after : Time → Time → Bool
is_after t u = ltb u t

saturate : ℤ → Duration
saturate (pos n) = if leb n max_int then pos n else pos max_int
saturate (negsuc n) = if leb n max_int then negsuc n else negsuc max_int

-- t.Sub(u), which stops at the longest and the shortest duration.
unfoldable pub sub : Time → Time → Duration
unfolding saturate
sub t u = saturate (sub_ℕ t u)
