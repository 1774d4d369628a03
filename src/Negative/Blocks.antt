-- ===== src/Negative/Blocks.antt =====
-- lab8/main.c: what the threads of the method `blk` leave in each byte.
use mathlib.Core.Path.{subst}
use native.Mathlib.Nat.{div-le_of_le-mul, mul-le-mul_left}
use sys_opy.Common.{
  ℕ, zero, suc, ◌+◌, ◌-◌, ◌*◌, ◌/◌, ◌≤◌, ◌<◌, ◌≡◌, refl, sym, ◌∙◌, true, ◌&&◌, if◌then◌else◌, ltb,
  leb, arith, List, [], ◌∷◌, inl, inr, Bool-cases,
}
use sys_opy.Common.Family.{update}
use sys_opy.Negative.{
  Bytes, BlkCtx, inverse8, blk_row8, blk_row, blk_rows, blk_thread, blk_ctx, run_blocks,
}
use sys_opy.Negative.Partition.{share_of, Contains, Covers}

blk_row8_at :
    (ctx : BlkCtx) (image : Bytes) (n i : ℕ) (out : Bytes) (p : ℕ)
    → blk_row8 ctx image n i out p ≡ (
        if leb (ctx.offs + i) p && ltb p (ctx.offs + i + n)
        then inverse8 ctx.maxval (image p)
        else out p)
unfolding blk_row8
blk_row8_at ctx image zero i out p = ground arith
blk_row8_at ctx image (suc n) i out p =
    blk_row8_at ctx image n (i + 1)
      (update out (ctx.offs + i) (inverse8 ctx.maxval (image (ctx.offs + i)))) p
    ∙ ground arith

module _ (ctx : BlkCtx) (image : Bytes) (small : ctx.maxval ≤ 255) (p : ℕ) where
  blk_row_at :
      (base : ℕ) (out : Bytes)
      → blk_row ctx image base out p ≡ (
          if leb (ctx.offs + base) p && ltb p (ctx.offs + base + ctx.rowlen)
          then inverse8 ctx.maxval (image p)
          else out p)
  unfolding blk_row
  blk_row_at base out = ground (arith, small, blk_row8_at ctx image ctx.rowlen base out p)

  abbrev Inverted : Bytes → Type 0
  Inverted out = out p ≡ inverse8 ctx.maxval (image p)

  blk_rows_stays :
      (fuel base : ℕ) (out : Bytes) → Inverted out → Inverted (blk_rows fuel ctx image base out)
  unfolding blk_rows
  blk_rows_stays zero base out e = e
  blk_rows_stays (suc fuel) base out e = elim (Bool-cases (leb (base + ctx.rowlen) ctx.len)) [
    | inl g ↦
        let row = blk_row ctx image base out in
        let kept : Inverted row = ground (arith, e, blk_row_at base out) in
        rw (g, blk_rows) (blk_rows_stays fuel (base + ctx.stride) row kept)
    | inr g ↦ rw (g, blk_rows) e
  ]

  -- The row with the byte is reached.
  blk_rows_hits :
      (rows fuel base : ℕ) (out : Bytes)
      → rows < fuel
      → ctx.offs + base + rows * ctx.stride ≤ p
      → p < ctx.offs + base + rows * ctx.stride + ctx.rowlen
      → base + rows * ctx.stride + ctx.rowlen ≤ ctx.len
      → Inverted (blk_rows fuel ctx image base out)
  unfolding blk_rows
  blk_rows_hits rows zero base out f lo hi fit = absurd (omega arith)
  blk_rows_hits zero (suc fuel) base out f lo hi fit =
      let row = blk_row ctx image base out in
      let guard : leb (base + ctx.rowlen) ctx.len ≡ true = ground (arith, fit) in
      let hit : Inverted row = ground (arith, lo, hi, blk_row_at base out) in
      rw (guard, blk_rows) (blk_rows_stays fuel (base + ctx.stride) row hit)
  blk_rows_hits (suc rows) (suc fuel) base out f lo hi fit =
      let guard : leb (base + ctx.rowlen) ctx.len ≡ true = ground (arith, fit) in
      let next : base + suc rows * ctx.stride ≡ (base + ctx.stride) + rows * ctx.stride =
        omega arith in
      rw (guard, blk_rows)
        (blk_rows_hits rows fuel (base + ctx.stride) (blk_row ctx image base out) (omega arith)
          (omega (arith, lo, next)) (omega (arith, hi, next)) (omega (arith, fit, next)))

module _ (threads width rows maxval : ℕ) (image : Bytes) (small : maxval ≤ 255) (p : ℕ) where
  abbrev Done : Bytes → Type 0
  Done out = out p ≡ inverse8 maxval (image p)

  abbrev ctx_of : ℕ → BlkCtx
  ctx_of k = blk_ctx threads width (width * rows) maxval k

  turn_stays : (k : ℕ) (out : Bytes) → Done out → Done (blk_thread (ctx_of k) image out)
  unfolding blk_thread blk_ctx
  turn_stays k out e = blk_rows_stays (ctx_of k) image small p ((ctx_of k).len + 1) 0 out e

  -- The thread of a column inverts it in each row.
  turn_hits :
      (k row col : ℕ) (out : Bytes)
      → k < threads
      → 0 < threads
      → row < rows
      → width * k / threads ≤ col
      → col < width * (k + 1) / threads
      → p ≡ row * width + col
      → Done (blk_thread (ctx_of k) image out)
  unfolding blk_thread blk_ctx
  turn_hits k row col out kt pos lt lo hi e =
      let offs = width * k / threads in
      let end = width * (k + 1) / threads in
      let next : k + 1 ≤ threads = omega arith in
      let inside : end ≤ width =
        div-le_of_le-mul threads (omega (arith, mul-le-mul_left width next)) in
      let below : row * width + width ≤ width * rows = omega (arith, mul-le-mul_left width lt) in
      let wide : 1 ≤ width = omega (arith, inside, hi) in
      let long : row ≤ row * width = omega (arith, mul-le-mul_left row wide) in
      blk_rows_hits (ctx_of k) image small p row ((ctx_of k).len + 1) 0 out
        (omega (arith, long, below, lo, hi, inside)) (omega (arith, lo, e))
        (omega (arith, lo, hi, e)) (omega (arith, inside, below, lo, hi))

  run_blocks_stays :
      (order : List ℕ) (out : Bytes)
      → Done out
      → Done (run_blocks threads width (width * rows) maxval image order out)
  unfolding run_blocks
  run_blocks_stays [] out e = e
  run_blocks_stays (k ∷ order) out e =
      run_blocks_stays order (blk_thread (ctx_of k) image out) (turn_stays k out e)

  run_blocks_hits :
      (k : ℕ) (order : List ℕ) (out : Bytes)
      → ((out' : Bytes) → Done (blk_thread (ctx_of k) image out'))
      → Contains k order
      → Done (run_blocks threads width (width * rows) maxval image order out)
  unfolding run_blocks
  run_blocks_hits k [] out hit h = absurd h
  run_blocks_hits k (x ∷ order) out hit (inl e) =
      run_blocks_stays order (blk_thread (ctx_of x) image out)
        (subst (λ t. Done (blk_thread (ctx_of t) image out)) (sym e) (hit out))
  run_blocks_hits k (x ∷ order) out hit (inr h) =
      run_blocks_hits k order (blk_thread (ctx_of x) image out) hit h

-- With the method `blk` on single bytes, whatever the number of threads and the order in which all
-- of them run, every byte of the image, whose rows have `width` bytes, comes out as its inverse.
pub run_blocks_lem :
    (threads width rows maxval : ℕ) (image out : Bytes) (order : List ℕ)
    → 0 < threads
    → maxval ≤ 255
    → Covers threads order
    → (row col : ℕ) → row < rows
    → col < width
    → image (row * width + col) ≤ maxval
    → run_blocks threads width (width * rows) maxval image order out (row * width + col)
      ≡ maxval - image (row * width + col)
run_blocks_lem threads width rows maxval image out order pos small all row col rlt clt bright =
    let (k, lt, lo, hi) = share_of width threads col pos clt in
    let p = row * width + col in
    run_blocks_hits threads width rows maxval image small p k order out
      (λ out'.
        turn_hits threads width rows maxval image small p k row col out' lt pos rlt lo hi refl)
      (all k lt)
    ∙ omega arith
