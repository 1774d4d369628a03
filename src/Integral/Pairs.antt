-- ===== src/Integral/Pairs.antt =====
-- The sums of lab3/zad2/main.c: what is added to them stays in their total.
use native.Mathlib.Nat.{div-div-eq-div-mul}
use mathlib.Core.Path.{subst}
use sys_opy.Common.{
  ap₂, ℕ_discrete, ℕ, zero, suc, ◌+◌, ◌*◌, ◌/◌, ◌%◌, ◌^◌, ◌≤◌, ◌<◌, ◌≡◌, refl, sym, ap, ◌∙◌, true,
  false, if◌then◌else◌, ◌==◌, List, [], ◌∷◌, length, set, get_or, arith, inl, inr, Bool-cases,
}
use sys_opy.Integral.{ctz_loop, ctz, add_lower, total_loop}

pub ctz-suc : (n : ℕ) → ctz (suc n) ≡ ctz_loop 32 (suc n)
unfolding ctz
ctz-suc n = let bit : (suc n == 0) ≡ false = ground arith in rw bit refl

ctz_odd : (fuel v : ℕ) → v % 2 ≡ 1 → ctz_loop (suc fuel) v ≡ 0
unfolding ctz_loop
ctz_odd fuel v e = let bit : (v % 2 == 0) ≡ false = ground (arith, e) in rw bit refl

ctz_even : (fuel v : ℕ) → v % 2 ≡ 0 → ctz_loop (suc fuel) v ≡ suc (ctz_loop fuel (v / 2))
unfolding ctz_loop
ctz_even fuel v e = let bit : (v % 2 == 0) ≡ true = ground (arith, e) in rw bit refl

module _ {ℓ} {A : Type ℓ} (add : A → A → A) (nil : A) where
  -- The sum of the entries at the bits of a number.
  pub sum_bits : ℕ → List A → A
  sum_bits n [] = nil
  sum_bits n (a ∷ l) = let rest = sum_bits (n / 2) l in if n % 2 == 1 then add a rest else rest

  sum_odd :
      (n : ℕ) (a : A) (l : List A) → n % 2 ≡ 1 → sum_bits n (a ∷ l) ≡ add a (sum_bits (n / 2) l)
  unfolding sum_bits
  sum_odd n a l e = let bit : (n % 2 == 1) ≡ true = ground (arith, e) in rw bit refl

  sum_even : (n : ℕ) (a : A) (l : List A) → n % 2 ≡ 0 → sum_bits n (a ∷ l) ≡ sum_bits (n / 2) l
  unfolding sum_bits
  sum_even n a l e = let bit : (n % 2 == 1) ≡ false = ground (arith, e) in rw bit refl

  pub sum_bits_zero : (l : List A) → sum_bits 0 l ≡ nil
  unfolding sum_bits
  sum_bits_zero [] = refl
  sum_bits_zero (a ∷ l) = sum_bits_zero l

  set_twice : (l : List A) (i : ℕ) (x y : A) → set (set l i x) i y ≡ set l i y
  set_twice [] i x y = refl
  set_twice (a ∷ l) zero x y = refl
  set_twice (a ∷ l) (suc i) x y = ap (◌∷◌ a) (set_twice l i x y)

  get_or_written : (l : List A) (i : ℕ) (x d : A) → i < length l → get_or (set l i x) i d ≡ x
  get_or_written [] i x d h = absurd (omega arith)
  get_or_written (a ∷ l) zero x d h = refl
  get_or_written (a ∷ l) (suc i) x d h = get_or_written l i x d (omega arith)

  abbrev pub put : ℕ → A → List A → List A
  put bin x accum = add_lower add nil bin 0 bin (set accum bin x)

  -- The lowest sum is not written.
  add_lower_cons :
      (rounds i bin : ℕ) (a : A) (l : List A)
      → add_lower add nil rounds (suc i) (suc bin) (a ∷ l) ≡ a ∷ add_lower add nil rounds i bin l
  unfolding add_lower
  add_lower_cons zero i bin a l = refl
  add_lower_cons (suc rounds) i bin a l =
      let next : suc i + 1 ≡ suc (i + 1) = omega arith in
      let written = set l bin (add (get_or l bin nil) (get_or l i nil)) in
      ap (λ t. add_lower add nil rounds t (suc bin) (a ∷ written)) next
      ∙ add_lower_cons rounds (i + 1) bin a written

  put_cons :
      (bin : ℕ) (x a : A) (l : List A)
      → bin < length l
      → put (suc bin) x (a ∷ l) ≡ a ∷ put bin (add x a) l
  unfolding add_lower
  put_cons bin x a l h =
      let next : 0 + 1 ≡ suc 0 = omega arith in
      let first : set (set l bin x) bin (add (get_or (set l bin x) bin nil) a)
          ≡ set l bin (add x a) =
        set_twice l bin x (add (get_or (set l bin x) bin nil) a)
        ∙ ap (λ t. set l bin (add t a)) (get_or_written l bin x nil h) in
      ap (λ t. add_lower add nil bin 1 (suc bin) (a ∷ t)) first
      ∙ add_lower_cons bin 0 bin a (set l bin (add x a))

  put_zero : (x a : A) (l : List A) → put 0 x (a ∷ l) ≡ x ∷ l
  unfolding add_lower
  put_zero x a l = refl

  pub length-put : (bin : ℕ) (x : A) (l : List A) → bin < length l → length (put bin x l) ≡ length l
  length-put bin x [] h = absurd (omega arith)
  length-put zero x (a ∷ l) h = ap length (put_zero x a l)
  length-put (suc bin) x (a ∷ l) h =
      ap length (put_cons bin x a l (omega arith))
      ∙ ap suc (length-put bin (add x a) l (omega arith))

  module _ (assoc : (a b c : A) → add (add a b) c ≡ add a (add b c)) where
    -- One value more, and its bit.
    pub put-sum_bits :
        (fuel n : ℕ) (x : A) (l : List A)
        → length l ≤ fuel
        → suc n < 2 ^ length l
        → (ctz_loop fuel (suc n) < length l)
          × (sum_bits (suc n) (put (ctz_loop fuel (suc n)) x l) ≡ add x (sum_bits n l))
    put-sum_bits fuel n x [] h b = absurd (omega arith)
    put-sum_bits zero n x (a ∷ l) h b = absurd (omega arith)
    put-sum_bits (suc fuel) n x (a ∷ l) h b =
        let goal : ℕ → Type ℓ = λ bin.
          (bin < suc (length l))
          × (sum_bits (suc n) (put bin x (a ∷ l)) ≡ add x (sum_bits n (a ∷ l))) in
        elim (ℕ_discrete (n % 2) 0) [
          | yes e ↦
              let half : suc n / 2 ≡ n / 2 = omega arith in
              subst goal (sym (ctz_odd fuel (suc n) (omega arith))) (
                omega arith,
                ap (sum_bits (suc n)) (put_zero x a l)
                    ∙ sum_odd (suc n) x l (omega arith)
                    ∙ ap (λ t. add x (sum_bits t l)) half
                    ∙ ap (add x) (sym (sum_even n a l e)),
              )
          | no ne ↦
              let half : suc n / 2 ≡ suc (n / 2) = omega arith in
              let bound : suc n < 2 ^ suc (length l) = b in
              let power : 2 ^ suc (length l) ≡ 2 * 2 ^ length l = omega arith in
              let (lt, later) =
                put-sum_bits fuel (n / 2) (add x a) l (omega arith) (omega (arith, bound, power)) in
              let bin = ctz_loop fuel (suc (n / 2)) in
              subst goal
                (sym (ctz_even fuel (suc n) (omega arith) ∙ ap (λ t. suc (ctz_loop fuel t)) half))
                (
                  omega (arith, lt),
                  ap (sum_bits (suc n)) (put_cons bin x a l lt)
                      ∙ sum_even (suc n) a (put bin (add x a) l) (omega arith)
                      ∙ ap (λ t. sum_bits t (put bin (add x a) l)) half
                      ∙ later
                      ∙ assoc x a (sum_bits (n / 2) l)
                      ∙ ap (add x) (sym (sum_odd n a l (omega arith))),
                )
        ]

  total_loop_cons :
      (rounds i mask : ℕ) (a : A) (l : List A) (res : A)
      → total_loop add nil rounds (suc i) (record { mask = mask; accum = a ∷ l }) res
        ≡ total_loop add nil rounds i (record { mask = mask / 2; accum = l }) res
  unfolding total_loop
  total_loop_cons zero i mask a l res = refl
  total_loop_cons (suc rounds) i mask a l res =
      let next : suc i + 1 ≡ suc (i + 1) = omega arith in
      let power : 2 ^ suc i ≡ 2 * 2 ^ i = omega arith in
      let same : mask / 2 ^ suc i ≡ mask / 2 / 2 ^ i =
        ap (λ t. mask / t) power ∙ sym (div-div-eq-div-mul mask 2 (2 ^ i)) in
      let res' = if (mask / 2 / 2 ^ i) % 2 == 1 then add res (get_or l i nil) else res in
      ap₂
        (λ t q.
          total_loop add nil rounds t (record { mask = mask; accum = a ∷ l })
            (if q % 2 == 1 then add res (get_or l i nil) else res))
        next same
      ∙ total_loop_cons rounds (i + 1) mask a l res'

  -- The last loop adds up the sums.
  pub total_loop-sum_bits :
      ((a b c : A) → add (add a b) c ≡ add a (add b c))
      → ((a : A) → add a nil ≡ a)
      → (mask : ℕ) (l : List A) (res : A)
      → total_loop add nil (length l) 0 (record { mask = mask; accum = l }) res
        ≡ add res (sum_bits mask l)
  unfolding total_loop sum_bits
  total_loop-sum_bits assoc unit mask [] res = sym (unit res)
  total_loop-sum_bits assoc unit mask (a ∷ l) res =
      let one : mask / 2 ^ 0 ≡ mask = omega arith in
      let res' = if mask % 2 == 1 then add res a else res in
      ap
        (λ q.
          total_loop add nil (length l) 1 (record { mask = mask; accum = a ∷ l })
            (if q % 2 == 1 then add res a else res))
        one
      ∙ total_loop_cons (length l) 0 mask a l res'
      ∙ total_loop-sum_bits assoc unit (mask / 2) l res'
      ∙ elim (Bool-cases (mask % 2 == 1)) [
        | inl e ↦ rw e (assoc res a (sum_bits (mask / 2) l))
        | inr e ↦ rw e refl
      ]
