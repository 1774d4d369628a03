-- ===== src/DirWalk/Buffer/Sizes.antt =====
-- The sizes that `next_size` of lab2/zad3/main.c gives.
use sys_opy.Common.{
  ℕ, suc, ◌+◌, ◌-◌, ◌*◌, ◌%◌, ◌^◌, ◌<◌, ◌≤◌, ◌≡◌, refl, true, false, ltb, ◌==◌, some, Bool-cases,
  inl, inr, arith,
}
use sys_opy.Common.Bits.{pow-pos}
use sys_opy.Shell.Buffer.{highest_bit}
use sys_opy.Shell.Buffer.NextSize.{highest_bit_lem, highest_place}
use sys_opy.DirWalk.Buffer.{next_size}

next_size-small : (n : ℕ) → 0 < n → n < 7 → next_size (n - 1) ≡ some 7
unfolding next_size
next_size-small n some_len lt =
    let same : (n - 1 + 1) % 2 ^ 64 ≡ n = omega (arith, some_len, lt) in
    let no_wrap : (n == 0) ≡ false = ground (arith, some_len) in
    let few : ltb n 7 ≡ true = ground (arith, lt) in rw (same, no_wrap, few) refl

next_size-large :
    (n k : ℕ)
    → 7 ≤ n
    → k < 63
    → 2 ^ k ≤ n
    → n < 2 ^ (k + 1)
    → n < 2 ^ 63
    → next_size (n - 1) ≡ some (2 * 2 ^ k - 1)
unfolding next_size
next_size-large n k large b l u small =
    let same : (n - 1 + 1) % 2 ^ 64 ≡ n = omega (arith, large, small) in
    let no_wrap : (n == 0) ≡ false = ground (arith, large) in
    let many : ltb n 7 ≡ false = ground (arith, large) in
    let bit = highest_bit_lem k 64 n (omega (arith, b)) l u in
    let value : (2 * highest_bit 64 n % 2 ^ 64 + (2 ^ 64 - 1)) % 2 ^ 64 ≡ 2 * 2 ^ k - 1 =
      omega (arith, bit, l, u, small, large, pow-pos k) in
    rw (same, no_wrap, many, value) refl

-- The next size for a length is enough for it, up to 2 ^ 63 - 1.
pub next_size-enough :
    (n : ℕ) → 0 < n → n < 2 ^ 63 → (wanted : ℕ) × (next_size (n - 1) ≡ some wanted) × (n ≤ wanted)
next_size-enough n some_len small = elim (Bool-cases (ltb n 7)) [
  | inl t ↦
      let lt : n < 7 = ground (arith, t) in (7, next_size-small n some_len lt, omega (arith, lt))
  | inr f ↦
      let large : 7 ≤ n = ground (arith, f) in
      let (k, b, l, u) = highest_place 63 n (omega (arith, some_len)) (omega (arith, small)) in
      let double : 2 ^ (k + 1) ≡ 2 * 2 ^ k =
        (let e : k + 1 ≡ suc k = omega arith in rw e (omega arith)) in
      (2 * 2 ^ k - 1, next_size-large n k large b l u small, omega (arith, u, double, l))
]
