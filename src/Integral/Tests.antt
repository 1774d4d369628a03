-- ===== src/Integral/Tests.antt =====
-- A run of lab3/zad2/main.c over whole numbers.
use sys_opy.Common.{ℕ, ◌+◌, ◌*◌, ◌≡◌, arith, some}
use sys_opy.Integral.{integrate}
use sys_opy.Integral.Strides.{samples_sum}
use sys_opy.Integral.Run.{integrate-samples_sum}

abbrev square : ℕ → ℕ
square s = s * s

abbrev plus : ℕ → ℕ → ℕ
plus a b = a + b

integrate-samples_sum_example : integrate plus 0 square 5 2 ≡ some (samples_sum plus 0 square 0 5)
integrate-samples_sum_example =
    integrate-samples_sum plus 0 (λ a b c. omega arith) (λ a b. omega arith) (λ a. omega arith)
      square 5 2 (omega arith) (omega arith) (omega arith)
