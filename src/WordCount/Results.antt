-- ===== src/WordCount/Results.antt =====
-- lab1/zad1/libwc.c: the table of results. Handles are indices; what a caller sees of the table is
-- what each handle gives.
use sys_opy.Common.{
  get_or-set, ℕ, zero, suc, ◌+◌, ◌-◌, ◌*◌, ◌^◌, ◌≤◌, ◌<◌, ◌≡◌, refl, ap, ◌∙◌, ◌⊎◌, inl, inr, Bool,
  true, false, ◌||◌, if◌then◌else◌, ltb, ltb→lt, leb, ◌==◌, Option, none, some, List, [], ◌∷◌, ◌++◌,
  get_or, set, replicate, length, take, length-append, length-take, length-replicate, length-set,
  arith, Bool-cases, Option-cases,
}
use sys_opy.Common.Int.{ℤ, pos, negsuc, int32}
use sys_opy.WordCount.{
  Text, Context, Env, ensure_space, grown_size, store_file, libwc_load_result, libwc_get_result,
}

pub leb-false : (a b : ℕ) → leb a b ≡ false → b < a
leb-false a b h = ground arith

module _ {ℓ} {A : Type ℓ} where
  get_or-grown :
      (xs : List (Option A)) (n k i : ℕ)
      → n ≤ length xs
      → get_or (take n xs ++ replicate k none) i none ≡ (if ltb i n then get_or xs i none else none)
  get_or-grown xs zero zero i h = ground arith
  get_or-grown xs zero (suc k) zero h = refl
  get_or-grown xs zero (suc k) (suc i) h = get_or-grown xs zero k i (omega arith) ∙ ground arith
  get_or-grown [] (suc n) k i h = absurd (omega arith)
  get_or-grown (x ∷ xs) (suc n) k zero h = ground arith
  get_or-grown (x ∷ xs) (suc n) k (suc i) h = get_or-grown xs n k i (omega arith) ∙ ground arith

-- The vector's bookkeeping: `cap` pointers are allocated, and those from `len` on are null.
pub record IsValid (ctx : Context) : Type 0 where
  pub width : length ctx.results ≡ ctx.cap
  pub within : ctx.len ≤ ctx.cap
  pub bytes : ctx.cap * 8 < 2 ^ 64
  pub unused : (i : ℕ) → ctx.len ≤ i → get_or ctx.results i none ≡ none

-- What `calloc` documents: an allocation that succeeds is of fewer bytes than a `size_t` can count.
unfoldable pub Sane : Env → Type 0
Sane env = (n size : ℕ) → env.calloc n size ≡ true → n * size < 2 ^ 64

-- Doubling makes room, and does not wrap for a table that memory can hold.
grown_size-lt : (cap : ℕ) → cap * 8 < 2 ^ 64 → cap < grown_size cap
unfolding grown_size
grown_size-lt cap h = ground arith

-- What growing the table keeps, and what it gives.
pub record Grown (room : Bool) (ctx ctx' : Context) : Type 0 where
  pub valid : IsValid ctx'
  pub same_len : ctx'.len ≡ ctx.len
  pub same : (i : ℕ) → get_or ctx'.results i none ≡ get_or ctx.results i none
  pub space : room ≡ true → ctx'.len < ctx'.cap

abbrev grown : Context → Context
grown ctx = record ctx {
  cap = grown_size ctx.cap;
  results = take ctx.len ctx.results ++ replicate (grown_size ctx.cap - ctx.len) none;
}

grown-Grown :
    (ctx : Context) → IsValid ctx → grown_size ctx.cap * 8 < 2 ^ 64 → Grown true ctx (grown ctx)
grown-Grown ctx v few =
    let bigger : ctx.cap < grown_size ctx.cap = grown_size-lt ctx.cap v.bytes in
    let reads : (i : ℕ) → get_or (grown ctx).results i none ≡ get_or ctx.results i none = λ i.
      get_or-grown ctx.results ctx.len (grown_size ctx.cap - ctx.len) i
        (omega (arith, v.width, v.within))
      ∙ ground (arith, v.unused i) in
    record {
      valid = record {
        width = omega (
          arith,
          v.width,
          v.within,
          length-append (take ctx.len ctx.results)
              (replicate {A = Option Text} (grown_size ctx.cap - ctx.len) none),
          length-take ctx.len ctx.results,
          length-replicate {A = Option Text} (grown_size ctx.cap - ctx.len) none,
        );
        within = omega (arith, v.within);
        bytes = few;
        unused = λ i h. reads i ∙ v.unused i h;
      };
      same_len = refl;
      same = reads;
      space = λ e. omega (arith, v.within);
    }

ensure_space-Grown :
    (env : Env) (ctx : Context)
    → Sane env
    → IsValid ctx
    → Grown (ensure_space env ctx).0 ctx (ensure_space env ctx).1
unfolding ensure_space Sane
ensure_space-Grown env ctx sane v = elim (Bool-cases (ltb ctx.len ctx.cap)) [
  | inl free ↦
      rw free
        (record { valid = v; same_len = refl; same = λ i. refl; space = λ e. ltb→lt _ _ free })
  | inr full ↦ elim (Bool-cases (env.calloc (grown_size ctx.cap) 8)) [
    | inl allocated ↦
        rw (full, allocated) (grown-Grown ctx v (sane (grown_size ctx.cap) 8 allocated))
    | inr failed ↦
        rw (full, failed) (record { valid = v; same_len = refl; same = λ i. refl; space = λ e. cc })
  ]
]

-- What one load has done. A handle is a number from 0 on, as many as there were results.
pub record Loaded (env : Env) (ctx : Context) (result : ℤ) (ctx' : Context) : Type 0 where
  pub valid : IsValid ctx'
  pub outcome :
      ((result ≡ negsuc 0)
        × (ctx'.len ≡ ctx.len)
        × ((i : ℕ) → get_or ctx'.results i none ≡ get_or ctx.results i none))
      ⊎ ((file : Text) × (env.opens ≡ some file)
          × (result ≡ pos ctx.len)
          × (libwc_get_result ctx' result ≡ some (some file))
          × (ctx'.len ≡ ctx.len + 1)
          × ((i : ℕ)
              → get_or ctx'.results i none
                ≡ (if ctx.len == i then some file else get_or ctx.results i none)))

module _ (env : Env) (ctx : Context) (v : IsValid ctx) (few : ctx.len < 2 ^ 31) where
  unchanged : Loaded env ctx (negsuc 0) ctx
  unchanged = record { valid = v; outcome = inl (refl, refl, λ i. refl) }

  store_file-Loaded :
      (file : Text)
      → ctx.len < ctx.cap
      → env.opens ≡ some file
      → env.read ≡ length file
      → env.close_fails ≡ false
      → (result : ℤ) × (ctx' : Context) × (store_file env file ctx ≡ some (result, ctx'))
        × Loaded env ctx result ctx'
  unfolding store_file libwc_get_result
  store_file-Loaded file room opened whole closed =
      let null : get_or ctx.results ctx.len none ≡ none = v.unused ctx.len (omega arith) in
      let full : (env.read == length file) ≡ true = ground arith in
      let reads : (i : ℕ)
          → get_or (set ctx.results ctx.len (some file)) i none
            ≡ (if ctx.len == i then some file else get_or ctx.results i none) =
        λ i. get_or-set ctx.results ctx.len i (some file) none (omega (arith, v.width)) in
      let more : ltb ctx.len (ctx.len + 1) ≡ true = ground arith in
      let gives : (if ltb ctx.len (ctx.len + 1)
            then some (get_or (set ctx.results ctx.len (some file)) ctx.len none)
            else none)
          ≡ some (some file) =
        rw (more, reads ctx.len) (ground arith) in
      elim (Bool-cases (env.calloc 1 (length file + 1))) [
        | inl allocated ↦
            let handle : int32 ctx.len ≡ pos ctx.len = ground arith in
            (
              pos ctx.len,
              record ctx { len = ctx.len + 1; results = set ctx.results ctx.len (some file) },
              ground (arith, handle),
              record {
                valid = record {
                  width = length-set ctx.results ctx.len (some file) ∙ v.width;
                  within = omega arith;
                  bytes = v.bytes;
                  unused = λ i h. reads i ∙ ground (arith, v.unused i);
                };
                outcome = inr (file, opened, refl, gives, refl, reads);
              },
            )
        | inr failed ↦ (negsuc 0, ctx, ground arith, unchanged)
      ]

Loaded-Grown :
    {env : Env} {ctx ctx₁ ctx' : Context} {room : Bool} {result : ℤ}
    → Grown room ctx ctx₁
    → Loaded env ctx₁ result ctx'
    → Loaded env ctx result ctx'
Loaded-Grown {env} {ctx} {ctx₁} {ctx'} {room} {result} g l = record {
  valid = l.valid;
  outcome = elim l.outcome [
    | inl (a, b, c) ↦ inl (a, b ∙ g.same_len, λ i. c i ∙ g.same i)
    | inr (file, a, b, h, c, d) ↦ inr (
      file,
      a,
      b ∙ ap pos g.same_len,
      h,
      c ∙ ap (λ n. n + 1) g.same_len,
      λ i. rw (← g.same_len, ← g.same i) (d i),
    )
  ];
}

-- With fewer than 2 ^ 31 results, a load from a file that is read whole and closed passes every
-- assertion; it either returns -1 and leaves what the handles give as it was, or returns the next
-- handle, for which `libwc_get_result` then gives the file's content, with all other handles as they
-- were. The table stays valid.
pub libwc_load_result_lem :
    (env : Env) (ctx : Context)
    → Sane env
    → IsValid ctx
    → ctx.len < 2 ^ 31
    → ((file : Text) → env.opens ≡ some file → env.read ≡ length file)
    → env.close_fails ≡ false
    → (result : ℤ) × (ctx' : Context) × (libwc_load_result env ctx ≡ some (result, ctx'))
      × Loaded env ctx result ctx'
unfolding libwc_load_result
libwc_load_result_lem env ctx sane v few whole closes =
    go (ensure_space env ctx).0 (ensure_space env ctx).1 refl (ensure_space-Grown env ctx sane v)
  where
    go :
        (room : Bool) (ctx₁ : Context)
        → ensure_space env ctx ≡ (room, ctx₁)
        → Grown room ctx ctx₁
        → (result : ℤ) × (ctx' : Context) × (libwc_load_result env ctx ≡ some (result, ctx'))
          × Loaded env ctx result ctx'
    go false ctx₁ e g = (
      negsuc 0,
      ctx₁,
      rw e,
      Loaded-Grown g (unchanged env ctx₁ g.valid (omega (arith, g.same_len, few))),
    )
    go true ctx₁ e g = elim (Option-cases env.opens) [
      | inl missing ↦ (
        negsuc 0,
        ctx₁,
        rw (missing, e),
        Loaded-Grown g (unchanged env ctx₁ g.valid (omega (arith, g.same_len, few))),
      )
      | inr (file, opened) ↦
          elim (Bool-cases (env.seek_end_fails || (env.tell_fails || env.seek_set_fails))) [
            | inl bad ↦ (
              negsuc 0,
              ctx₁,
              rw (opened, bad, e),
              Loaded-Grown g (unchanged env ctx₁ g.valid (omega (arith, g.same_len, few))),
            )
            | inr good ↦
                let (result, ctx', done, l) =
                  store_file-Loaded env ctx₁ g.valid (omega (arith, g.same_len, few)) file
                    (g.space refl) opened (whole file opened) closes in
                (result, ctx', rw (opened, good, e) done, Loaded-Grown g l)
          ]
    ]
