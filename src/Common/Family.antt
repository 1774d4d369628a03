-- ===== src/Common/Family.antt =====
-- Threads as a family from indices: the update of one thread, and weighted sums over the first `n`.
use Prim.Native.Nat.{ℕ, zero, suc, ◌+◌, ◌*◌, ◌≤◌, ◌<◌}
use mathlib.Core.Path.{◌≡◌, refl}
use mathlib.Core.Logic.{ite, ◌⊎◌, inl, inr}
use native.Mathlib.Decide.{dec_lt, ℕ_discrete}
use native.Mathlib.Omega.{arith}
use sys_opy.Common.Tests.{if◌then◌else◌, ltb}

-- The family in which thread `i` is `a`.
abbrev pub update {ℓ} : {A : Type ℓ} → (ℕ → A) → ℕ → A → (ℕ → A)
update threads i a = λ j. ite (ℕ_discrete i j) a (threads j)

module _ {ℓ} {A : Type ℓ} (w : A → ℕ) where
  pub total : ℕ → (ℕ → A) → ℕ
  total zero threads = 0
  total (suc n) threads = w (threads n) + total n threads

  -- What a thread adds to the sum over the first `n`: nothing from `n` on.
  abbrev part : ℕ → ℕ → ℕ → ℕ
  part n i k = if ltb i n then k else 0

  total-update-part :
      (threads : ℕ → A) (i : ℕ) (a : A) (n : ℕ)
      → part n i (w (threads i)) + total n (update threads i a) ≡ part n i (w a) + total n threads
  unfolding total
  total-update-part threads i a zero = ground arith
  total-update-part threads i a (suc n) = ground (arith, total-update-part threads i a n)

  pub total-update :
      (n : ℕ) (threads : ℕ → A) (i : ℕ) (a : A)
      → i < n
      → total n (update threads i a) + w (threads i) ≡ total n threads + w a
  total-update n threads i a h = ground (arith, total-update-part threads i a n)

  -- A sum of weights up to a bound is up to the bound for each thread.
  total_bound : (k : ℕ) → ((a : A) → w a ≤ k) → (threads : ℕ → A) (n : ℕ) → total n threads ≤ k * n
  unfolding total
  total_bound k small threads zero = omega arith
  total_bound k small threads (suc n) =
      grind (arith, total_bound k small threads n, small (threads n))

  pub total-le : ((a : A) → w a ≤ 1) → (n : ℕ) (threads : ℕ → A) → total n threads ≤ n
  total-le small n threads = omega (arith, total_bound 1 small threads n)

  -- Threads without weight add nothing up.
  pub total-eq-zero :
      (n : ℕ) (threads : ℕ → A) → ((i : ℕ) → w (threads i) ≡ 0) → total n threads ≡ 0
  unfolding total
  total-eq-zero zero threads none = omega arith
  total-eq-zero (suc n) threads none = omega (arith, none n, total-eq-zero n threads none)

  -- One thread's weight is part of the sum.
  pub le-total : (n : ℕ) (f : ℕ → A) (i : ℕ) → i < n → w (f i) ≤ total n f
  unfolding total
  le-total zero f i h = absurd (omega arith)
  le-total (suc n) f i h = elim (dec_lt i n) [
    | yes below ↦ omega (arith, le-total n f i below)
    | no last ↦ ground arith
  ]

  -- Two different threads' weights are both part of the sum.
  pub add-le-total : (n : ℕ) (f : ℕ → A) (i j : ℕ) → i < j → j < n → w (f i) + w (f j) ≤ total n f
  unfolding total
  add-le-total zero f i j h k = absurd (omega arith)
  add-le-total (suc n) f i j h k = elim (dec_lt j n) [
    | yes below ↦ omega (arith, add-le-total n f i j h below)
    | no last ↦ ground (arith, le-total n f i)
  ]

module _ {ℓ} {A : Type ℓ} (w v : A → ℕ) (le : (a : A) → w a ≤ v a) where
  -- The sums of two weights compare as the weights do.
  pub total_mono : (n : ℕ) (f : ℕ → A) → total w n f ≤ total v n f
  unfolding total
  total_mono zero f = omega arith
  total_mono (suc n) f = omega (arith, total_mono n f, le (f n))

  -- A thread on which the weights differ makes the sums differ.
  pub total_strict :
      (n : ℕ) (f : ℕ → A) (i : ℕ) → i < n → w (f i) < v (f i) → total w n f < total v n f
  unfolding total
  total_strict zero f i h k = absurd (omega arith)
  total_strict (suc n) f i h k = elim (dec_lt i n) [
    | yes below ↦ omega (arith, total_strict n f i below k, le (f n))
    | no last ↦ ground (arith, total_mono n f)
  ]

module _ {ℓ} {A : Type ℓ} (w : A → ℕ) where
  -- Either no thread carries the weight, or one that does is found.
  pub total-cases : (n : ℕ) (f : ℕ → A) → (total w n f ≡ 0) ⊎ ((i : ℕ) × (i < n) × (0 < w (f i)))
  unfolding total
  total-cases zero f = inl refl
  total-cases (suc n) f = elim (dec_lt 0 (w (f n))) [
    | yes here ↦ inr (n, omega arith, here)
    | no none_here ↦ elim (total-cases n f) [
      | inl z ↦ inl (omega arith)
      | inr found ↦ inr (found.0, omega (arith, found.1), found.2)
    ]
  ]

-- Two weights that make up 1 on each thread make up the number of threads.
pub total-complement {ℓ} :
    {A : Type ℓ} (w v : A → ℕ)
    → ((a : A) → w a + v a ≡ 1)
    → (n : ℕ) (f : ℕ → A) → total w n f + total v n f ≡ n
unfolding total
total-complement w v one zero f = omega arith
total-complement w v one (suc n) f = omega (arith, total-complement w v one n f, one (f n))
