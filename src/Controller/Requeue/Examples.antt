-- ===== src/Controller/Requeue/Examples.antt =====
-- The delay at twelve hours, with a generator that returns its largest number.
use altinn_k8s_operator.Base.{ℕ, suc, ◌/◌, ok, crash, Result}
use altinn_k8s_operator.Base.Int.{ℤ, pos, negsuc}
use altinn_k8s_operator.Controller.Requeue.{Randomness}

abbrev largest : ℤ → Result ℤ
largest (pos (suc n)) = ok (pos n)
largest _ = crash "invalid argument to Int64N"

abbrev tenth : ℤ → ℤ
tenth (pos n) = pos (n / 10)
tenth (negsuc n) = negsuc (n / 10)

abbrev random : Randomness ℕ
random = record { ten_percent = tenth; int64_n = λ bound w. (largest bound, w) }
