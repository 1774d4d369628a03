-- ===== src/Shell/Buffer/Push.antt =====
-- Pushes to the vector of lab5/zad1/main.c.
use sys_opy.Common.{
  ℕ, zero, suc, ◌+◌, ◌-◌, ◌*◌, ◌/◌, ◌%◌, ◌^◌, ◌≤◌, ◌<◌, ◌≡◌, refl, ap, ◌∙◌, arith, Bool, true,
  false, ◌==◌, if◌then◌else◌, ltb, leb, ◌⊎◌, Option, none, some, List, [], ◌∷◌, ◌++◌, length, take,
  set, replicate, length-append, length-take, length-replicate, length-set, inl, inr, Bool-cases,
  dec_lt,
}
use sys_opy.Shell.Buffer.NextSize.{next_size_lem}
use sys_opy.Shell.Buffer.{Vec, next_size, vec_realloc, vec_ensure, vec_push, cells}

power_mono : (a b : ℕ) → a ≤ b → 2 ^ a ≤ 2 ^ b
power_mono a zero h = let same : a ≡ 0 = omega (arith, h) in rw same (omega arith)
power_mono a (suc b) h = elim (dec_lt a (suc b)) [
  | yes lt ↦
      let double : 2 ^ suc b ≡ 2 * 2 ^ b = omega arith in
      omega (arith, double, power_mono a b (omega (arith, lt)))
  | no ge ↦ let same : a ≡ suc b = omega (arith, h, ge) in rw same (omega arith)
]

-- The next size of 2 ^ 60 is itself.
power_within :
    (n k : ℕ)
    → n ≤ 2 ^ 60
    → next_size n ≡ 2 ^ k
    → (next_size n ≡ 4) ⊎ (next_size n < 2 * n)
    → next_size n ≤ 2 ^ 60
power_within n k b s (inl e) = omega (arith, e)
power_within n k b s (inr lt) = elim (dec_lt 60 k) [
  | yes over ↦
      absurd (let far = power_mono 61 k (omega (arith, over)) in omega (arith, far, lt, s, b))
  | no within ↦ let near = power_mono k 60 (omega (arith, within)) in omega (arith, near, s)
]

module _ {ℓ} {A : Type ℓ} where
  -- The elements and the capacity lie in the block.
  abbrev pub IsVec : Vec A → Type 0
  IsVec v = (v.len ≤ length (cells v.block)) × (v.cap ≤ length (cells v.block))

  take-set_end :
      (n : ℕ) (xs : List (Option A)) (v : Option A)
      → n < length xs
      → take (suc n) (set xs n v) ≡ take n xs ++ v ∷ []
  take-set_end n [] v h = absurd (omega arith)
  take-set_end zero (x ∷ xs) v h = refl
  take-set_end (suc n) (x ∷ xs) v h = ap (λ t. x ∷ t) (take-set_end n xs v (omega arith))

  take-take_append :
      (n : ℕ) (xs ys : List (Option A)) → n ≤ length xs → take n (take n xs ++ ys) ≡ take n xs
  take-take_append zero xs ys h = refl
  take-take_append (suc n) [] ys h = absurd (omega arith)
  take-take_append (suc n) (x ∷ xs) ys h = ap (λ t. x ∷ t) (take-take_append n xs ys (omega arith))

  abbrev pub elems_of : Vec A → List (Option A)
  elems_of v = take v.len (cells v.block)

  -- The vector with a block of `n` cells.
  Grown : Vec A → ℕ → Option (Vec A) → Type ℓ
  Grown v n r =
      (v' : Vec A) × (r ≡ some v')
      × IsVec v'
      × (v'.len ≡ v.len)
      × (elems_of v' ≡ elems_of v)
      × (n ≤ length (cells v'.block))

  vec_realloc_lem :
      (alloc : ℕ → Bool) (v : Vec A) (n : ℕ)
      → IsVec v
      → v.cap < n
      → v.len ≤ n
      → n ≤ 2 ^ 60
      → alloc (n * 8) ≡ true
      → Grown v n (vec_realloc alloc v n)
  unfolding vec_realloc Grown
  vec_realloc_lem alloc v n (h, h') p q few a =
      let whole : (n * 8) % 2 ^ 64 ≡ n * 8 = omega (arith, few) in
      let cells_of : n * 8 / 8 ≡ n = omega arith in
      let copied : ltb (n * 8) (v.len * 8) ≡ false = ground (arith, q) in
      let xs = cells v.block in
      let empty : Option A = none in
      let room = replicate (n - v.len) empty in
      let size : length (take v.len xs ++ room) ≡ n = omega (
        arith,
        length-append (take v.len xs) room,
        length-take v.len xs,
        length-replicate (n - v.len) empty,
      ) in
      let more : ltb v.cap n ≡ true = ground arith in
      let grown : Vec A = record v {
        block = some (take v.len xs ++ room);
        cap = if v.len == 0 then v.cap else n;
      } in
      (
        grown,
        rw (whole, cells_of, more, a, copied) refl,
        (omega (arith, size), ground (arith, size)),
        refl,
        take-take_append v.len xs room h,
        omega (arith, size),
      )

  vec_ensure_lem :
      (alloc : ℕ → Bool) (v : Vec A) (n : ℕ)
      → IsVec v
      → v.len ≤ n
      → n ≤ 2 ^ 60
      → alloc (next_size n * 8) ≡ true
      → Grown v n (vec_ensure alloc v n)
  unfolding vec_ensure Grown
  vec_ensure_lem alloc v n h q b a = elim (Bool-cases (ltb v.cap n)) [
    | inr e ↦ rw e (v, refl, h, refl, refl, ground (arith, h.1))
    | inl e ↦
        let (k, s, large, t) = next_size_lem n (omega (arith, b)) in
        let small : next_size n ≤ 2 ^ 60 = power_within n k b s t in
        let enough : leb n (next_size n) ≡ true = ground (arith, large) in
        let (v', r, i, l, c, u) =
          vec_realloc_lem alloc v (next_size n) h (ground (arith, large)) (omega arith) small a in
        rw (e, enough) (v', r, i, l, c, omega arith)
  ]

  -- A push to a vector whose elements lie in its block, when the allocation succeeds and the length
  -- is below 2 ^ 60, gives such a vector again, with the new element behind the old ones.
  pub vec_push_lem :
      (alloc : ℕ → Bool) (v : Vec A) (e : A)
      → IsVec v
      → v.len < 2 ^ 60
      → alloc (next_size (v.len + 1) * 8) ≡ true
      → (v' : Vec A) × (vec_push alloc v e ≡ some v')
        × IsVec v'
        × (v'.len ≡ v.len + 1)
        × (elems_of v' ≡ elems_of v ++ some e ∷ [])
  unfolding vec_push Grown
  vec_push_lem alloc v e h b a =
      let (v', r, i, l, c, u) =
        vec_ensure_lem alloc v (v.len + 1) h (omega arith) (omega arith) a in
      let xs = cells v'.block in
      let size = length-set xs v'.len (some e) in
      let inside : leb (length (cells v'.block)) v'.len ≡ false = ground (arith, u, l) in
      let next : v'.len + 1 ≡ suc v'.len = omega arith in
      let pushed : Vec A = record v' { block = some (set xs v'.len (some e)); len = v'.len + 1 } in
      (
        pushed,
        rw (r, inside) refl,
        (omega (arith, size), omega (arith, size)),
        omega arith,
        ap (λ n. take n (set xs v'.len (some e))) next
            ∙ take-set_end v'.len xs (some e) (omega arith)
            ∙ ap (λ t. t ++ some e ∷ []) c,
      )
