-- ===== src/Controller/Requeue/Bounds.antt =====
-- How far randomizeDuration of internal/controller/maskinportenclient_controller.go moves a delay.
use altinn_k8s_operator.Base.{ℕ, ◌+◌, ◌<◌, ◌≤◌, ◌≡◌, ok}
use altinn_k8s_operator.Base.Exec.Ensures.{Ensures}
use altinn_k8s_operator.Base.Int.{ℤ, pos}
use altinn_k8s_operator.Config.{Config}
use altinn_k8s_operator.Time.{Duration}
use altinn_k8s_operator.Controller.Requeue.{Randomness}

-- What Int64N documents: a number from 0 up to the bound, which must be positive.
pub record IsRandom {W : Type 0} (random : Randomness W) : Type 0 where
  pub below :
      (bound : ℕ) (w w' : W) (r : ℤ)
      → random.int64_n (pos bound) w ≡ (ok r, w')
      → (i : ℕ) × (r ≡ pos i) × (i < bound)

-- The delay, moved by at most this number in either direction.
abbrev pub IsNear : ℕ → ℕ → Duration → Type 0
IsNear d m result = (k : ℕ) × (result ≡ pos k) × (d ≤ k + m) × (k < d + m)
