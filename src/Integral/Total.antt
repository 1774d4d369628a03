-- ===== src/Integral/Total.antt =====
-- What the sums of lab3/zad2/main.c hold after each value.
use sys_opy.Common.{
  ℕ, suc, ◌+◌, ◌%◌, ◌^◌, ◌<◌, ◌≡◌, refl, sym, ap, ◌∙◌, true, ltb, some, replicate, length, arith,
  length-replicate,
}
use sys_opy.Integral.{ctz_loop, Sums, add_value, total_loop, no_sums}
use sys_opy.Integral.Pairs.{
  sum_bits, put, put-sum_bits, length-put, ctz-suc, total_loop-sum_bits, sum_bits_zero,
}

module _ {ℓ} {A : Type ℓ} (add : A → A → A) (nil : A) where
  module _ (assoc : (a b c : A) → add (add a b) c ≡ add a (add b c))
      (comm : (a b : A) → add a b ≡ add b a) (unit : (a : A) → add a nil ≡ a) where
    -- The sums hold that many values, with that total.
    pub record Holds (count : ℕ) (total : A) (sums : Sums A) : Type ℓ where
      pub counted : sums.mask ≡ count
      pub long : length sums.accum ≡ 32
      pub summed : sum_bits add nil sums.mask sums.accum ≡ total

    pub no_sums-Holds : Holds 0 nil (no_sums add nil)
    no_sums-Holds = record {
      counted = refl;
      long = length-replicate 32 nil;
      summed = sum_bits_zero add nil (replicate 32 nil);
    }

    pub add_value-Holds :
        (count : ℕ) (total x : A) (sums : Sums A)
        → Holds count total sums
        → suc count < 2 ^ 32
        → (next : Sums A) × (add_value add nil sums x ≡ some next)
          × Holds (suc count) (add x total) next
    unfolding add_value
    add_value-Holds count total x sums h b =
        let wrapped : (sums.mask + 1) % 2 ^ 32 ≡ suc sums.mask = omega (arith, h.counted, b) in
        let power : 2 ^ length sums.accum ≡ 2 ^ 32 = ap (λ t. 2 ^ t) h.long in
        let (lt, sum) =
          put-sum_bits add nil assoc 32 sums.mask x sums.accum (omega (arith, h.long))
            (omega (arith, h.counted, b, power)) in
        let bin = ctz_loop 32 (suc sums.mask) in
        let next : Sums A = record { mask = suc sums.mask; accum = put add nil bin x sums.accum } in
        let inside : ltb bin (length sums.accum) ≡ true = ground (arith, lt) in
        (
          next,
          rw (wrapped, ctz-suc sums.mask, inside) refl,
          record {
            counted = ap suc h.counted;
            long = length-put add nil bin x sums.accum lt ∙ h.long;
            summed = sum ∙ ap (add x) h.summed;
          },
        )

    pub total_loop-Holds :
        (count : ℕ) (total : A) (sums : Sums A)
        → Holds count total sums
        → total_loop add nil 32 0 sums nil ≡ total
    total_loop-Holds count total sums h =
        ap (λ t. total_loop add nil t 0 sums nil) (sym h.long)
        ∙ total_loop-sum_bits add nil assoc unit sums.mask sums.accum nil
        ∙ comm nil (sum_bits add nil sums.mask sums.accum)
        ∙ unit (sum_bits add nil sums.mask sums.accum)
        ∙ h.summed
