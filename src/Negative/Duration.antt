-- ===== src/Negative/Duration.antt =====
-- The times that lab8/main.c prints (`sprint_dur`). A `struct timespec` is its seconds and its
-- nanoseconds, the number that is printed is kept with its unit.
use sys_opy.Common.{
  ℕ, ◌+◌, ◌-◌, ◌*◌, ◌/◌, ◌%◌, ◌≤◌, ◌<◌, arith, ◌&&◌, if◌then◌else◌, ltb, ◌==◌, inl, inr, Bool-cases,
}

-- What is printed: whole nanoseconds, microseconds with a tenth, milliseconds with hundredths.
pub data Printed : Type 0 where
  nanos : ℕ → Printed
  micros : ℕ → ℕ → Printed
  millis : ℕ → ℕ → Printed

-- The format for the difference; the arguments are `secs` and `nanos` of the source.
pub print_diff : ℕ → ℕ → Printed
print_diff s n =
    if (s == 0) && ltb n 10000
    then nanos n
    else if (s == 0) && ltb n 10000000
    then micros (n / 1000) (n / 100 % 10)
    else millis (1000 * s + n / 1000000) (n / 10000 % 100)

-- The time from `(s₀, n₀)` to `(s₁, n₁)`, which is not earlier.
pub sprint_dur : ℕ → ℕ → ℕ → ℕ → Printed
unfolding print_diff
sprint_dur s₀ n₀ s₁ n₁ =
    if ltb n₁ n₀
    then print_diff (s₁ - s₀ - 1) (n₁ + 1000000000 - n₀)
    else print_diff (s₁ - s₀) (n₁ - n₀)

-- The printed time in nanoseconds, and its precision.
abbrev pub in_nanos : Printed → ℕ
in_nanos (nanos n) = n
in_nanos (micros m t) = m * 1000 + t * 100
in_nanos (millis m h) = m * 1000000 + h * 10000

abbrev pub precision : Printed → ℕ
precision (nanos n) = 1
precision (micros m t) = 100
precision (millis m h) = 10000

print_diff_lem :
    (s n : ℕ)
    → n < 1000000000
    → (in_nanos (print_diff s n) ≤ s * 1000000000 + n)
      × (s * 1000000000 + n < in_nanos (print_diff s n) + precision (print_diff s n))
unfolding print_diff
print_diff_lem s n h = elim (Bool-cases ((s == 0) && ltb n 10000)) [
  | inl e ↦ rw e (ground arith, ground arith)
  | inr e ↦ elim (Bool-cases ((s == 0) && ltb n 10000000)) [
    | inl e' ↦ rw (e, e') (ground arith, ground arith)
    | inr e' ↦ rw (e, e') (omega arith, omega arith)
  ]
]

-- The time printed for two times of a clock, the first not after the second and the nanoseconds of
-- each below a second, is the time between them rounded down to the unit's precision.
pub sprint_dur_lem :
    (s₀ n₀ s₁ n₁ : ℕ)
    → n₀ < 1000000000
    → n₁ < 1000000000
    → s₀ * 1000000000 + n₀ ≤ s₁ * 1000000000 + n₁
    → (s₀ * 1000000000 + n₀ + in_nanos (sprint_dur s₀ n₀ s₁ n₁) ≤ s₁ * 1000000000 + n₁)
      × (s₁ * 1000000000 + n₁
          < s₀ * 1000000000
            + n₀
            + in_nanos (sprint_dur s₀ n₀ s₁ n₁)
            + precision (sprint_dur s₀ n₀ s₁ n₁))
unfolding sprint_dur
sprint_dur_lem s₀ n₀ s₁ n₁ p q r = elim (Bool-cases (ltb n₁ n₀)) [
  | inl e ↦
      let before : n₁ < n₀ = ground arith in
      let (l, u) = print_diff_lem (s₁ - s₀ - 1) (n₁ + 1000000000 - n₀) (omega arith) in
      rw e (omega (arith, l), omega (arith, u))
  | inr e ↦
      let after : n₀ ≤ n₁ = ground arith in
      let (l, u) = print_diff_lem (s₁ - s₀) (n₁ - n₀) (omega arith) in
      rw e (omega (arith, l), omega (arith, u))
]
