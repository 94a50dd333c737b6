-- ===== src/Controller/Requeue.antt =====
-- getRequeueAfter and randomizeDuration of internal/controller/maskinportenclient_controller.go. The
-- product of floating point numbers is a parameter, and so is the random generator; the integers
-- wrap around at 64 bits.
pub mod Bounds
pub mod Examples
use altinn_k8s_operator.Base.{ℕ, ◌+◌, ◌-◌, ◌%◌, ◌^◌, Result, ltb, if◌then◌else◌}
use altinn_k8s_operator.Base.Exec.{Exec, pure, ◌>>=◌}
use altinn_k8s_operator.Base.Int.{ℤ, pos, negsuc, ◌+ℤ◌, ◌-ℤ◌}
use altinn_k8s_operator.Config.{Config}
use altinn_k8s_operator.Time.{Duration}

-- The integer of 64 bits that has these bits.
abbrev pub signed : ℕ → ℤ
signed n = if ltb n (2 ^ 63) then pos n else negsuc (2 ^ 64 - 1 - n)

abbrev pub to_int64 : ℤ → ℤ
to_int64 (pos n) = signed (n % 2 ^ 64)
to_int64 (negsuc n) = signed (2 ^ 64 - 1 - n % 2 ^ 64)

pub record Randomness (W : Type 0) : Type 0 where
  -- int64(float64(d) * (10.0 / 100.0))
  pub ten_percent : Duration → ℤ
  -- random.Int64N
  pub int64_n : ℤ → Exec W ℤ

module _ {W : Type 0} (random : Randomness W) where
  -- At the percentage that the program uses.
  unfoldable pub randomize_duration : Duration → Exec W Duration
  randomize_duration d = do
    let max = random.ten_percent d
    let min = to_int64 (pos 0 -ℤ max)
    r ← random.int64_n (to_int64 (max -ℤ min))
    pure (to_int64 (d +ℤ to_int64 (r +ℤ min)))

  unfoldable pub get_requeue_after : Config → Exec W Duration
  unfolding randomize_duration
  get_requeue_after config = randomize_duration config.controller.requeue_after
