-- ===== src/Negative/Partition.antt =====
-- lab8/main.c: how `main` deals a range out to its threads: thread `i` gets what lies from
-- `range * i / threads` up to `range * (i + 1) / threads`.
use sys_opy.Common.{ℕ, zero, suc, ◌+◌, ◌*◌, ◌/◌, ◌≤◌, ◌<◌, ◌≡◌, arith, dec_lt, List, [], ◌∷◌, ◌⊎◌}
use native.Mathlib.Nat.{mul-div_cancel, mul-zero, zero-div}

-- A value below the end of some steps lies in one of them.
step_of :
    (f : ℕ → ℕ) (v n : ℕ) → f 0 ≤ v → v < f n → (k : ℕ) × (k < n) × (f k ≤ v) × (v < f (k + 1))
step_of f v zero lo hi = absurd (omega arith)
step_of f v (suc n) lo hi = elim (dec_lt v (f n)) [
  | yes below ↦ let (k, lt, a, b) = step_of f v n lo below in (k, omega arith, a, b)
  | no last ↦ (n, omega arith, omega arith, ground arith)
]

-- Every value of the range falls to one of the threads.
pub share_of :
    (range threads v : ℕ)
    → 0 < threads
    → v < range
    → (k : ℕ) × (k < threads) × (range * k / threads ≤ v) × (v < range * (k + 1) / threads)
share_of range threads v pos h =
    step_of (λ k. range * k / threads) v threads (rw (mul-zero, zero-div) (omega arith))
      (rw (mul-div_cancel range pos) h)

-- The threads run in an order that leaves none of them out.
abbrev pub Contains : ℕ → List ℕ → Type 0
Contains k [] = ⊥
Contains k (x ∷ xs) = (x ≡ k) ⊎ Contains k xs

abbrev pub Covers : ℕ → List ℕ → Type 0
Covers threads order = (k : ℕ) → k < threads → Contains k order
