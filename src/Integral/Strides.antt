-- ===== src/Integral/Strides.antt =====
-- The shares of the children of lab3/zad2/main.c: each takes every `workers`th sample.
use sys_opy.Common.{ap₂, dec_lt, ℕ, zero, suc, ◌+◌, ◌-◌, ◌≤◌, ◌<◌, ◌≡◌, refl, sym, ap, ◌∙◌, arith}

module _ {ℓ} {A : Type ℓ} (add : A → A → A) (nil : A) where
  -- The sum of `n` samples from `s` on.
  pub samples_sum : (ℕ → A) → ℕ → ℕ → A
  samples_sum func s zero = nil
  samples_sum func s (suc n) = add (func s) (samples_sum func (s + 1) n)

  -- Of the `n` samples from `s` on, the sum of each `workers`th one, `c` being left out at first.
  pub stride_sum : (ℕ → A) → ℕ → ℕ → ℕ → ℕ → A
  stride_sum func workers c s zero = nil
  stride_sum func workers zero s (suc n) =
      add (func s) (stride_sum func workers (workers - 1) (s + 1) n)
  stride_sum func workers (suc c) s (suc n) = stride_sum func workers c (s + 1) n

module _ {ℓ} {A : Type ℓ} (add : A → A → A) (nil : A) (func : ℕ → A) where
  abbrev stride : ℕ → ℕ → ℕ → ℕ → A
  stride = stride_sum add nil func

  stride_skip :
      (workers c s n : ℕ) → c ≤ n → stride workers c s n ≡ stride workers 0 (s + c) (n - c)
  unfolding stride_sum
  stride_skip workers zero s n h =
      let a : s + 0 ≡ s = omega arith in
      let b : n - 0 ≡ n = omega arith in sym (ap₂ (stride workers 0) a b)
  stride_skip workers (suc c) s zero h = absurd (omega arith)
  stride_skip workers (suc c) s (suc n) h =
      let a : (s + 1) + c ≡ s + suc c = omega arith in
      let b : n - c ≡ suc n - suc c = omega arith in
      stride_skip workers c (s + 1) n (omega arith) ∙ ap₂ (stride workers 0) a b

  pub stride_none : (workers c s n : ℕ) → n ≤ c → stride workers c s n ≡ nil
  unfolding stride_sum
  stride_none workers c s zero h = refl
  stride_none workers zero s (suc n) h = absurd (omega arith)
  stride_none workers (suc c) s (suc n) h = stride_none workers c (s + 1) n (omega arith)

  -- The share from a place on, for a place inside and outside the samples.
  pub stride_from : (workers c s n : ℕ) → stride workers c s n ≡ stride workers 0 (s + c) (n - c)
  stride_from workers c s n = elim (dec_lt n c) [
    | yes lt ↦
        let over : n - c ≡ 0 = omega (arith, lt) in
        stride_none workers c s n (omega (arith, lt))
        ∙ sym (ap (stride workers 0 (s + c)) over ∙ stride_none workers 0 (s + c) 0 (omega arith))
    | no ge ↦ stride_skip workers c s n (omega (arith, ge))
  ]

  stride_suc :
      (workers s n : ℕ)
      → stride workers 0 s (suc n) ≡ add (func s) (stride workers (workers - 1) (s + 1) n)
  unfolding stride_sum
  stride_suc workers s n = refl

  -- The first sample of a share, and the rest.
  pub stride_next :
      (samples workers s : ℕ)
      → 0 < workers
      → s < samples
      → stride workers 0 s (samples - s)
        ≡ add (func s) (stride workers 0 (s + workers) (samples - (s + workers)))
  stride_next samples workers s some_worker lt =
      let n = samples - suc s in
      let more : samples - s ≡ suc n = omega arith in
      let place : (s + 1) + (workers - 1) ≡ s + workers = omega arith in
      let left : n - (workers - 1) ≡ samples - (s + workers) = omega arith in
      ap (stride workers 0 s) more
      ∙ stride_suc workers s n
      ∙ ap (add (func s))
          (stride_from workers (workers - 1) (s + 1) n ∙ ap₂ (stride workers 0) place left)

  -- The shares of `rounds` children, from child `c` on.
  pub shares : ℕ → ℕ → ℕ → ℕ → ℕ → A
  shares workers zero c s n = nil
  shares workers (suc rounds) c s n =
      add (stride_sum add nil func workers c s n) (shares workers rounds (c + 1) s n)

  shares_shift :
      (workers rounds c s n : ℕ)
      → shares workers rounds (suc c) s (suc n) ≡ shares workers rounds c (s + 1) n
  unfolding shares stride_sum
  shares_shift workers zero c s n = refl
  shares_shift workers (suc rounds) c s n =
      let next : suc c + 1 ≡ suc (c + 1) = omega arith in
      ap (add (stride workers c (s + 1) n))
        (ap (λ t. shares workers rounds t s (suc n)) next ∙ shares_shift workers rounds (c + 1) s n)

  module _ (assoc : (a b c : A) → add (add a b) c ≡ add a (add b c))
      (comm : (a b : A) → add a b ≡ add b a) (unit : (a : A) → add a nil ≡ a) where
    shares_last :
        (workers rounds c s n : ℕ)
        → shares workers (suc rounds) c s n
          ≡ add (stride workers (c + rounds) s n) (shares workers rounds c s n)
    unfolding shares
    shares_last workers zero c s n =
        let same : c + 0 ≡ c = omega arith in ap (λ t. add (stride workers t s n) nil) (sym same)
    shares_last workers (suc rounds) c s n =
        let a = stride workers c s n in
        let b = stride workers (c + suc rounds) s n in
        let rest = shares workers rounds (c + 1) s n in
        let same : (c + 1) + rounds ≡ c + suc rounds = omega arith in
        ap (add a)
          (shares_last workers rounds (c + 1) s n ∙ ap (λ t. add (stride workers t s n) rest) same)
        ∙ sym (assoc a b rest)
        ∙ ap (λ t. add t rest) (comm a b)
        ∙ assoc b a rest

    shares_nil : (workers rounds c s : ℕ) → shares workers rounds c s 0 ≡ nil
    unfolding shares stride_sum
    shares_nil workers zero c s = refl
    shares_nil workers (suc rounds) c s =
        ap (add nil) (shares_nil workers rounds (c + 1) s) ∙ unit nil

    -- The shares of all children together are all samples.
    pub shares_all :
        (rounds s n : ℕ) → shares (suc rounds) (suc rounds) 0 s n ≡ samples_sum add nil func s n
    unfolding samples_sum shares
    shares_all rounds s zero = shares_nil (suc rounds) (suc rounds) 0 s
    shares_all rounds s (suc n) =
        let w = suc rounds in
        let left : suc rounds - 1 ≡ 0 + rounds = omega arith in
        let rest = shares w rounds 0 (s + 1) n in
        let last = stride w (0 + rounds) (s + 1) n in
        ap₂ add (stride_suc w s n ∙ ap (λ t. add (func s) (stride w t (s + 1) n)) left)
          (shares_shift w rounds 0 s n)
        ∙ assoc (func s) last rest
        ∙ ap (add (func s)) (sym (shares_last w rounds 0 (s + 1) n) ∙ shares_all rounds (s + 1) n)

  pub shares_cons :
      (workers rounds c s n : ℕ)
      → shares workers (suc rounds) c s n
        ≡ add (stride_sum add nil func workers c s n) (shares workers rounds (c + 1) s n)
  unfolding shares
  shares_cons workers rounds c s n = refl

  pub shares_zero : (workers c s n : ℕ) → shares workers 0 c s n ≡ nil
  unfolding shares
  shares_zero workers c s n = refl
