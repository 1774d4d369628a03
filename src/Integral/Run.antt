-- ===== src/Integral/Run.antt =====
-- The run of lab3/zad2/main.c: its result is the sum of all samples.
use mathlib.Core.Path.{subst}
use sys_opy.Common.{
  ℕ, zero, suc, ◌+◌, ◌-◌, ◌^◌, ◌<◌, ◌≡◌, refl, sym, ap, ◌∙◌, true, false, ltb, some, [], arith, inl,
  inr, Bool-cases,
}
use sys_opy.Integral.{Sums, add_value, no_sums, child_loop, child, collect, integrate, name_fits}
use sys_opy.Strtol.{length-put_digits}
use sys_opy.Integral.Total.{Holds, no_sums-Holds, add_value-Holds, total_loop-Holds}
use sys_opy.Integral.Strides.{
  samples_sum, stride_sum, stride_from, stride_none, stride_next, shares, shares_cons, shares_zero,
  shares_all,
}

-- A number below 10 ^ 6 has six digits at most.
name_fits-below : (r : ℕ) → r + 1 < 10 ^ 6 → name_fits r ≡ true
unfolding name_fits
name_fits-below r h =
    let six : r + 1 < 10 ^ suc 5 = omega (arith, h) in
    let digits = length-put_digits 5 (r + 1 + 1) (r + 1) [] six in ground (arith, digits)

module _ {ℓ} {A : Type ℓ} (add : A → A → A) (nil : A)
    (assoc : (a b c : A) → add (add a b) c ≡ add a (add b c)) (comm : (a b : A) → add a b ≡ add b a)
    (unit : (a : A) → add a nil ≡ a) (func : ℕ → A) (samples workers : ℕ) where
  abbrev Held : ℕ → A → Sums A → Type ℓ
  Held = Holds add nil assoc comm unit

  child_more :
      (fuel s : ℕ) (sums next : Sums A)
      → ltb s samples ≡ true
      → add_value add nil sums (func s) ≡ some next
      → child_loop add nil func samples workers (suc fuel) s sums
        ≡ child_loop add nil func samples workers fuel (s + workers) next
  unfolding child_loop
  child_more fuel s sums next e a = rw (e, a, child_loop) refl

  child_stop :
      (fuel s : ℕ) (sums : Sums A)
      → ltb s samples ≡ false
      → child_loop add nil func samples workers (suc fuel) s sums ≡ some sums
  unfolding child_loop
  child_stop fuel s sums e = rw (e, child_loop) refl

  abbrev ahead : ℕ → A
  ahead s = stride_sum add nil func workers 0 s (samples - s)

  carry : (a b c : A) → add a (add b c) ≡ add (add b a) c
  carry a b c = sym (assoc a b c) ∙ ap (λ t. add t c) (comm a b)

  child_loop-Holds :
      (fuel s count : ℕ) (total : A) (sums : Sums A)
      → 0 < workers
      → Held count total sums
      → samples - s < fuel
      → count + (samples - s) < 2 ^ 32
      → (last : Sums A) × (child_loop add nil func samples workers fuel s sums ≡ some last)
        × ((count' : ℕ) × Held count' (add (ahead s) total) last)
  child_loop-Holds zero s count total sums w h f b = absurd (omega arith)
  child_loop-Holds (suc fuel) s count total sums w h f b = elim (Bool-cases (ltb s samples)) [
    | inl e ↦
        let lt : s < samples = ground (arith, e) in
        let (next, run, h') =
          add_value-Holds add nil assoc comm unit count total (func s) sums h
            (omega (arith, lt, b)) in
        let (last, later, (count', h'')) =
          child_loop-Holds fuel (s + workers) (suc count) (add (func s) total) next w h'
            (omega (arith, lt, w, f)) (omega (arith, lt, w, b)) in
        let sum : add (ahead (s + workers)) (add (func s) total) ≡ add (ahead s) total =
          carry (ahead (s + workers)) (func s) total
          ∙ ap (λ t. add t total) (sym (stride_next add nil func samples workers s w lt)) in
        (
          last,
          child_more fuel s sums next e run ∙ later,
          (count', subst (λ t. Held count' t last) sum h''),
        )
    | inr e ↦
        let over : samples - s ≡ 0 = ground (arith, e) in
        let sum : total ≡ add (ahead s) total =
          sym (unit total)
          ∙ comm total nil
          ∙ ap (λ t. add t total)
              (sym (stride_none add nil func workers 0 s (samples - s) (omega (arith, over)))) in
        (sums, child_stop fuel s sums e, (count, subst (λ t. Held count t sums) sum h))
  ]

  -- A child adds up its share.
  child-share :
      (r : ℕ)
      → 0 < workers
      → samples < 2 ^ 32
      → r + 1 < 10 ^ 6
      → child add nil func samples workers r ≡ some (stride_sum add nil func workers r 0 samples)
  unfolding child
  child-share r w few named =
      let (last, run, (count, h)) =
        child_loop-Holds (samples + 1) r 0 nil (no_sums add nil) w
          (no_sums-Holds add nil assoc comm unit) (omega arith) (omega (arith, few)) in
      let place : 0 + r ≡ r = omega arith in
      let sum = total_loop-Holds add nil assoc comm unit count (add (ahead r) nil) last h in
      rw (run, name_fits-below r named)
        (ap some (
          sum
          ∙ unit (ahead r)
          ∙ sym (
              stride_from add nil func workers r 0 samples
              ∙ ap (λ t. stride_sum add nil func workers 0 t (samples - r)) place)))

  collect_more :
      (rounds r : ℕ) (sums next : Sums A) (res : A)
      → name_fits r ≡ true
      → child add nil func samples workers r ≡ some res
      → add_value add nil sums res ≡ some next
      → collect add nil func samples workers (suc rounds) r sums
        ≡ collect add nil func samples workers rounds (r + 1) next
  unfolding collect
  collect_more rounds r sums next res n c a = rw (c, n, a, collect) refl

  collect-Holds :
      (rounds r count : ℕ) (total : A) (sums : Sums A)
      → 0 < workers
      → samples < 2 ^ 32
      → Held count total sums
      → count + rounds < 2 ^ 32
      → r + rounds < 10 ^ 6
      → (last : Sums A) × (collect add nil func samples workers rounds r sums ≡ some last)
        × ((count' : ℕ) × Held count'
              (add (shares add nil func workers rounds r 0 samples) total)
              last)
  unfolding collect
  collect-Holds zero r count total sums w few h b named =
      let sum : total ≡ add (shares add nil func workers 0 r 0 samples) total =
        sym (unit total)
        ∙ comm total nil
        ∙ ap (λ t. add t total) (sym (shares_zero add nil func workers r 0 samples)) in
      (sums, refl, (count, subst (λ t. Held count t sums) sum h))
  collect-Holds (suc rounds) r count total sums w few h b named =
      let res = stride_sum add nil func workers r 0 samples in
      let later = shares add nil func workers rounds (r + 1) 0 samples in
      let (next, run, h') =
        add_value-Holds add nil assoc comm unit count total res sums h (omega (arith, b)) in
      let (last, go, (count', h'')) =
        collect-Holds rounds (r + 1) (suc count) (add res total) next w few h' (omega (arith, b))
          (omega (arith, named)) in
      let short : r + 1 < 10 ^ 6 = omega (arith, named) in
      let sum =
        carry later res total
        ∙ ap (λ t. add t total) (sym (shares_cons add nil func workers rounds r 0 samples)) in
      (
        last,
        collect_more rounds r sums next res (name_fits-below r short) (child-share r w few short)
              run
            ∙ go,
        (count', subst (λ t. Held count' t last) sum h''),
      )

-- For an addition that is associative and commutative and has 0, as exact addition is, for fewer
-- than 2 ^ 32 samples and for 1 to 999999 children, no write falls out of `accum` or `filename`, every
-- loop ends, and the result is the sum of all samples, each of them once.
pub integrate-samples_sum {ℓ} :
    {A : Type ℓ} (add : A → A → A) (nil : A)
    → ((a b c : A) → add (add a b) c ≡ add a (add b c))
    → ((a b : A) → add a b ≡ add b a)
    → ((a : A) → add a nil ≡ a)
    → (func : ℕ → A) (samples workers : ℕ) → 0 < workers
    → workers < 10 ^ 6
    → samples < 2 ^ 32
    → integrate add nil func samples workers ≡ some (samples_sum add nil func 0 samples)
unfolding integrate
integrate-samples_sum add nil assoc comm unit func samples zero w small few = absurd (omega arith)
integrate-samples_sum add nil assoc comm unit func samples (suc workers) w small few =
    let (last, run, (count, h)) =
      collect-Holds add nil assoc comm unit func samples (suc workers) (suc workers) 0 0 nil
        (no_sums add nil) w few (no_sums-Holds add nil assoc comm unit) (omega (arith, small))
        (omega (arith, small)) in
    let all = shares add nil func (suc workers) (suc workers) 0 0 samples in
    let sum = total_loop-Holds add nil assoc comm unit count (add all nil) last h in
    rw run (ap some (sum ∙ unit all ∙ shares_all add nil func assoc comm unit workers 0 samples))
