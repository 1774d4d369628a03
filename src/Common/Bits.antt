-- ===== src/Common/Bits.antt =====
-- Binary digits: conjunctions with masks, odd numbers, and remainders by powers of two.
use Prim.Native.Nat.{
  ℕ, zero, suc, ◌+◌, ◌-◌, ◌*◌, ◌/◌, ◌%◌, ◌^◌, ◌≤◌, ◌<◌, min, bit_and, bit_and-bitwise, bit_or,
  bit_or-bitwise, digits,
}
use mathlib.Core.Path.{◌≡◌, refl, ap, ◌∙◌, sym}
use native.Mathlib.Decide.{ℕ_discrete}
use native.Mathlib.Omega.{arith}
use native.Mathlib.Nat.{add-mul-mod_self_right, mod-eq_of_lt, mod-lt, div-add-mod'}

-- `bit_and` on a bound for its number of digits.
abbrev bounded : ℕ → ℕ → ℕ → ℕ
bounded = digits (λ b. 0) min

bounded-zero : (n b : ℕ) → bounded n 0 b ≡ 0
bounded-zero zero b = refl
bounded-zero (suc n) b = refl

bounded_enough : (n m a b : ℕ) → a ≤ n → a ≤ m → bounded n a b ≡ bounded m a b
bounded_enough n m zero b p q = bounded-zero n b ∙ sym (bounded-zero m b)
bounded_enough zero m (suc a) b p q = absurd (omega arith)
bounded_enough (suc n) zero (suc a) b p q = absurd (omega arith)
bounded_enough (suc n) (suc m) (suc a) b p q =
    ap (λ t. t * 2 + min (suc a % 2) (b % 2))
      (bounded_enough n m (suc a / 2) (b / 2) (omega arith) (omega arith))

-- The digits of a conjunction.
pub halves : (a b : ℕ) → bit_and a b ≡ bit_and (a / 2) (b / 2) * 2 + min (a % 2) (b % 2)
halves zero b = omega (arith, bit_and-bitwise 0 b, bit_and-bitwise 0 (b / 2))
halves (suc a) b =
    bit_and-bitwise (suc a) b
    ∙ ap (λ t. t * 2 + min (suc a % 2) (b % 2))
        (bounded_enough a (suc a / 2) (suc a / 2) (b / 2) (omega arith) (omega arith)
          ∙ sym (bit_and-bitwise (suc a / 2) (b / 2)))

pub bit_and_self : (n a : ℕ) → a ≤ n → bit_and a a ≡ a
bit_and_self zero zero h = refl
bit_and_self zero (suc a) h = absurd (omega arith)
bit_and_self (suc n) zero h = refl
bit_and_self (suc n) (suc a) h =
    omega (arith, halves (suc a) (suc a), bit_and_self n (suc a / 2) (omega arith))

pub pow-pos : (k : ℕ) → 0 < 2 ^ k
pow-pos zero = omega arith
pow-pos (suc k) = omega (arith, pow-pos k)

-- The lowest digit apart.
mod-double : (x m : ℕ) → 0 < m → x % (2 * m) ≡ (x / 2) % m * 2 + x % 2
mod-double x m pos =
    let r = (x / 2) % m * 2 + x % 2 in
    let q = x / 2 / m in
    let split : x ≡ r + q * (2 * m) = omega (arith, div-add-mod' (x / 2) m) in
    let small : r < 2 * m = omega (arith, mod-lt (x / 2) pos) in
    ap (λ t. t % (2 * m)) split ∙ (add-mul-mod_self_right r q (2 * m) ∙ mod-eq_of_lt small)

bit_and-zero : (n x : ℕ) → x ≤ n → bit_and x 0 ≡ 0
bit_and-zero n zero h = omega (arith, halves 0 0)
bit_and-zero zero (suc x) h = absurd (omega arith)
bit_and-zero (suc n) (suc x) h =
    omega (arith, halves (suc x) 0, bit_and-zero n (suc x / 2) (omega arith))

-- A mask of the `k` lowest digits.
pub bit_and-mask : (k x : ℕ) → bit_and x (2 ^ k - 1) ≡ x % 2 ^ k
bit_and-mask zero x = omega (arith, bit_and-zero x x (omega arith))
bit_and-mask (suc k) x =
    let mask : 2 ^ suc k - 1 ≡ 2 * (2 ^ k - 1) + 1 = omega (arith, pow-pos k) in
    let half : (2 * (2 ^ k - 1) + 1) / 2 ≡ 2 ^ k - 1 = omega arith in
    let power : 2 ^ suc k ≡ 2 * 2 ^ k = omega arith in
    rw
      (
        mask,
        power,
        mod-double x (2 ^ k) (pow-pos k),
        halves x (2 * (2 ^ k - 1) + 1),
        half,
        bit_and-mask k (x / 2),
      )
      (omega arith)

-- Doubling the modulus keeps an equation whose multiples differ by an even number.
pair_up :
    (s t m a b r : ℕ)
    → s + (2 * a + r) * m ≡ t + (2 * b + r) * m
    → s + a * (2 * m) ≡ t + b * (2 * m)
pair_up s t m a b r e = omega arith

pair_up_even :
    (s t m a b : ℕ)
    → (a + b) % 2 ≡ 0
    → s + a * m ≡ t + b * m
    → s + a / 2 * (2 * m) ≡ t + b / 2 * (2 * m)
pair_up_even s t m a b even e =
    let a' : 2 * (a / 2) + a % 2 ≡ a = omega arith in
    let b' : b ≡ 2 * (b / 2) + a % 2 = omega arith in
    pair_up s t m (a / 2) (b / 2) (a % 2)
      (ap (λ (x : ℕ). s + x * m) a' ∙ (e ∙ ap (λ (x : ℕ). t + x * m) b'))

-- One round more, of an odd step.
add_round :
    (start i u a t b m : ℕ)
    → start + i * (2 * u + 1) + a * m ≡ t + b * m
    → start + (i + m) * (2 * u + 1) + a * m ≡ t + (b + (2 * u + 1)) * m
add_round start i u a t b m e = omega arith

pub bit_or_odd : (x : ℕ) → bit_or x 1 % 2 ≡ 1
bit_or_odd zero = refl
bit_or_odd (suc x) = omega (arith, bit_or-bitwise (suc x) 1)

-- An odd step reaches every remainder: `i` steps from `start`, up to multiples of `2 ^ k`.
pub steps_reach :
    (k start u t : ℕ)
    → (i a b : ℕ) × (i < 2 ^ k) × (start + i * (2 * u + 1) + a * 2 ^ k ≡ t + b * 2 ^ k)
steps_reach zero start u t = (0, t, start, omega arith, omega arith)
steps_reach (suc k) start u t =
    let (i, a, b, lt, e) = steps_reach k start u t in
    let m = 2 ^ k in
    let power : 2 * m ≡ 2 ^ suc k = omega arith in
    let step : ℕ → ℕ = λ j. start + j * (2 * u + 1) in
    elim (ℕ_discrete ((a + b) % 2) 0) [
      | yes even ↦
          (i, a / 2, b / 2, omega arith, rw (← power) (pair_up_even (step i) t m a b even e))
      | no odd ↦
          let c = b + (2 * u + 1) in
          (
            i + m,
            a / 2,
            c / 2,
            omega arith,
            rw (← power)
                (pair_up_even (step (i + m)) t m a c (omega arith) (add_round start i u a t b m e)),
          )
    ]

pub pow-multiple : (n c : ℕ) → c ≤ n → (d : ℕ) × (2 ^ n ≡ d * 2 ^ c)
pow-multiple zero zero h = (1, omega arith)
pow-multiple zero (suc c) h = absurd (omega arith)
pow-multiple (suc n) zero h = (2 ^ suc n, omega arith)
pow-multiple (suc n) (suc c) h =
    let (d, e) = pow-multiple n c (omega arith) in
    let power : 2 ^ suc c ≡ 2 * 2 ^ c = omega arith in
    (d, omega (arith, e, ap (λ (t : ℕ). d * t) power))

-- A wrap at a multiple of the modulus does not show.
pub mod_wrap : (x y w d m : ℕ) → w ≡ d * m → (x % w + y) % m ≡ (x + y) % m
mod_wrap x y w d m e =
    let split : x + y ≡ (x % w + y) + (x / w * d) * m =
      omega (arith, div-add-mod' x w, ap (λ (t : ℕ). x / w * t) e) in
    sym (ap (λ t. t % m) split ∙ add-mul-mod_self_right (x % w + y) (x / w * d) m)

pub mask-place : (c mask x : ℕ) → mask + 1 ≡ 2 ^ c → bit_and x mask ≡ x % (mask + 1)
mask-place c mask x e =
    let same : mask ≡ 2 ^ c - 1 = omega arith in
    ap (bit_and x) same ∙ (bit_and-mask c x ∙ ap (λ t. x % t) (sym e))
