-- ===== src/Shell/Buffer/NextSize.antt =====
-- The sizes that `next_size` of lab5/zad1/main.c gives.
use Prim.Native.Nat.{bit_and}
use sys_opy.Common.{
  ℕ, zero, suc, ◌+◌, ◌-◌, ◌*◌, ◌/◌, ◌%◌, ◌^◌, ◌≤◌, ◌<◌, ◌≡◌, refl, ap, ◌∙◌, arith, true, false, ltb,
  ◌==◌, inl, inr, ◌⊎◌, Bool-cases,
}
use sys_opy.Common.Bits.{halves, bit_and_self}
use sys_opy.Shell.Buffer.{highest_bit, next_size}

-- Clearing the lowest bit of an odd and of an even number.
clear-odd : (a : ℕ) → bit_and (2 * a + 1) (2 * a + 1 - 1) ≡ 2 * a
clear-odd a =
    let h₁ : (2 * a + 1) / 2 ≡ a = omega arith in
    let h₂ : (2 * a + 1 - 1) / 2 ≡ a = omega arith in
    rw (halves (2 * a + 1) (2 * a + 1 - 1), h₁, h₂, bit_and_self a a (omega arith)) (omega arith)

clear-even : (a : ℕ) → 1 ≤ a → bit_and (2 * a) (2 * a - 1) ≡ 2 * bit_and a (a - 1)
clear-even a p =
    let h₁ : 2 * a / 2 ≡ a = omega arith in
    let h₂ : (2 * a - 1) / 2 ≡ a - 1 = omega arith in
    rw (halves (2 * a) (2 * a - 1), h₁, h₂) (omega arith)

highest_bit-even : (fuel a : ℕ) → 1 ≤ a → highest_bit fuel (2 * a) ≡ 2 * highest_bit fuel a
unfolding highest_bit
highest_bit-even zero a p = refl
highest_bit-even (suc fuel) a p = elim (Bool-cases (bit_and a (a - 1) == 0)) [
  | inl e ↦ rw (clear-even a p) (ground arith)
  | inr e ↦
      let rest = highest_bit-even fuel (bit_and a (a - 1)) (ground arith) in
      rw (clear-even a p) (ground (arith, rest))
]

highest_bit-odd : (fuel a : ℕ) → 1 ≤ a → highest_bit (suc fuel) (2 * a + 1) ≡ 2 * highest_bit fuel a
unfolding highest_bit
highest_bit-odd fuel a p =
    let more : (2 * a == 0) ≡ false = ground arith in
    rw (clear-odd a, more, highest_bit-even fuel a p)

highest_bit_one : (fuel : ℕ) → highest_bit fuel 1 ≡ 1
unfolding highest_bit
highest_bit_one zero = refl
highest_bit_one (suc fuel) = refl

double : (k : ℕ) → 2 ^ (k + 1) ≡ 2 * 2 ^ k
double k = let e : k + 1 ≡ suc k = omega arith in rw e (omega arith)

double_suc : (k : ℕ) → 2 ^ suc k ≡ 2 * 2 ^ k
double_suc k = omega arith

pub highest_bit_lem :
    (k fuel x : ℕ) → k ≤ fuel → 2 ^ k ≤ x → x < 2 ^ (k + 1) → highest_bit fuel x ≡ 2 ^ k
highest_bit_lem zero fuel x p h h' = let e : x ≡ 1 = omega arith in rw e (highest_bit_one fuel)
highest_bit_lem (suc k) zero x p h h' = absurd (omega arith)
highest_bit_lem (suc k) (suc fuel) x p h h' = elim (Bool-cases (x % 2 == 0)) [
  | inl e ↦
      let half : x ≡ 2 * (x / 2) = ground arith in
      ap (highest_bit (suc fuel)) half
      ∙ highest_bit-even (suc fuel) (x / 2) (omega (arith, double k, double (suc k)))
      ∙ (ap (λ t. 2 * t)
            (highest_bit_lem k (suc fuel) (x / 2) (omega (arith, double k, double (suc k)))
              (omega (arith, double k, double (suc k))) (omega (arith, double k, double (suc k))))
          ∙ (omega (arith, double k, double (suc k))))
  | inr e ↦
      let half : x ≡ 2 * (x / 2) + 1 = ground arith in
      ap (highest_bit (suc fuel)) half
      ∙ highest_bit-odd fuel (x / 2) (omega (arith, double k, double (suc k)))
      ∙ (ap (λ t. 2 * t)
            (highest_bit_lem k fuel (x / 2) (omega (arith, double k, double (suc k)))
              (omega (arith, double k, double (suc k))) (omega (arith, double k, double (suc k))))
          ∙ (omega (arith, double k, double (suc k))))
]

pub highest_place :
    (n y : ℕ) → 1 ≤ y → y < 2 ^ n → (k : ℕ) × (k < n) × (2 ^ k ≤ y) × (y < 2 ^ (k + 1))
highest_place zero y p q = absurd (omega arith)
highest_place (suc n) y p q = elim (Bool-cases (ltb y (2 ^ n))) [
  | inl h ↦ let (k, b, l, u) = highest_place n y p (ground arith) in (k, omega arith, l, u)
  | inr h ↦ (n, omega arith, ground arith, omega (arith, double n))
]

next_size_large :
    (x k : ℕ)
    → 4 ≤ x
    → x ≤ 2 ^ 63
    → k < 64
    → 2 ^ k ≤ 2 * x - 1
    → 2 * x - 1 < 2 ^ (k + 1)
    → next_size x ≡ 2 ^ k
unfolding next_size
next_size_large x k p q b l u =
    let small : ltb x 4 ≡ false = ground arith in
    let e : ((2 * x) % 2 ^ 64 + (2 ^ 64 - 1)) % 2 ^ 64 ≡ 2 * x - 1 = omega arith in
    rw (small, e) (highest_bit_lem k 64 (2 * x - 1) (omega arith) l u)

next_size_small : (x : ℕ) → x < 4 → next_size x ≡ 4
unfolding next_size
next_size_small x p = let small : ltb x 4 ≡ true = ground arith in rw small

-- For a size of at most 2 ^ 63 the next size is a power of two, at least as large, and below twice
-- the size unless it is the least size of 4.
pub next_size_lem :
    (x : ℕ)
    → x ≤ 2 ^ 63
    → (k : ℕ) × (next_size x ≡ 2 ^ k)
      × (x ≤ next_size x)
      × ((next_size x ≡ 4) ⊎ (next_size x < 2 * x))
next_size_lem x h = elim (Bool-cases (ltb x 4)) [
  | inl e ↦ let s = next_size_small x (ground arith) in (2, s, ground (arith, s), inl s)
  | inr e ↦
      let large : 4 ≤ x = ground arith in
      let (k, b, l, u) = highest_place 64 (2 * x - 1) (omega arith) (omega arith) in
      let s = next_size_large x k large h b l u in
      (k, s, omega (arith, s, l, u, double k), inr (omega (arith, s, l, u)))
]
