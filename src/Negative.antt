-- ===== src/Negative.antt =====
-- lab8/main.c: threads that invert an image. The image and the output are arrays of bytes, here
-- functions from the index; a pointer into them is an offset. What a thread stores is the low byte
-- of an `int`.
pub mod Partition
pub mod Numbers
pub mod Blocks
pub mod Output
pub mod Tokens
pub mod Reader
pub mod Duration
mod Tests
use sys_opy.Common.{
  ℕ, zero, suc, ◌+◌, ◌-◌, ◌*◌, ◌/◌, ◌%◌, Bool, true, false, ◌&&◌, if◌then◌else◌, ltb, leb, List, [],
  ◌∷◌,
}
use sys_opy.Common.Family.{update}

abbrev pub Bytes : Type 0
Bytes = ℕ → ℕ

-- `struct thread_ctx` of a thread of the method `num`.
pub record ValCtx : Type 0 where
  pub len : ℕ
  pub maxval : ℕ
  pub min_val : ℕ
  pub max_val : ℕ

-- The byte stored for the value `val` of one byte.
abbrev pub inverse8 : ℕ → ℕ → ℕ
inverse8 maxval val = (maxval + 256 - val) % 256

-- The low 16 bits of `maxval - val`, for a value of two bytes.
abbrev pub inverse16 : ℕ → ℕ → ℕ
inverse16 maxval val = (maxval + 65536 - val) % 65536

-- The test of `val_thread`.
pub is_mine : ValCtx → ℕ → Bool
is_mine ctx val = leb ctx.min_val val && ltb val ctx.max_val

-- The loop over single bytes, with the rounds left and the index.
pub val_loop8 : ValCtx → Bytes → ℕ → ℕ → Bytes → Bytes
unfolding is_mine
val_loop8 ctx image zero i out = out
val_loop8 ctx image (suc n) i out =
    val_loop8 ctx image n (i + 1)
      (if is_mine ctx (image i) then update out i (inverse8 ctx.maxval (image i)) else out)

-- The value of two bytes, the first of them the high one.
abbrev pub word_at : Bytes → ℕ → ℕ
word_at image i = image i * 256 + image (i + 1)

abbrev pub store_word : Bytes → ℕ → ℕ → Bytes
store_word out i w = update (update out i (w / 256)) (i + 1) (w % 256)

-- The loop over pairs of bytes.
pub val_loop16 : ValCtx → Bytes → ℕ → ℕ → Bytes → Bytes
unfolding is_mine
val_loop16 ctx image zero i out = out
val_loop16 ctx image (suc n) i out = val_loop16 ctx image n (i + 2) (
    if is_mine ctx (word_at image i)
    then store_word out i (inverse16 ctx.maxval (word_at image i))
    else out)

-- `val_thread`, without its clock and its report.
pub val_thread : ValCtx → Bytes → Bytes → Bytes
unfolding val_loop8 val_loop16
val_thread ctx image out =
    if leb ctx.maxval 255
    then val_loop8 ctx image ctx.len 0 out
    else val_loop16 ctx image (ctx.len / 2) 0 out

-- The context that `main` gives thread `i` of the method `num`.
pub val_ctx : ℕ → ℕ → ℕ → ℕ → ValCtx
val_ctx threads imagewritten maxval i = record {
  len = imagewritten;
  maxval = maxval;
  min_val = (maxval + 1) * i / threads;
  max_val = (maxval + 1) * (i + 1) / threads;
}

-- The threads of the method `num`, each in its turn.
pub run_numbers : ℕ → ℕ → ℕ → Bytes → List ℕ → Bytes → Bytes
unfolding val_thread val_ctx
run_numbers threads imagewritten maxval image [] out = out
run_numbers threads imagewritten maxval image (i ∷ order) out =
    run_numbers threads imagewritten maxval image order
      (val_thread (val_ctx threads imagewritten maxval i) image out)

-- `struct thread_ctx` of a thread of the method `blk`; `offs` is where its pointers point.
pub record BlkCtx : Type 0 where
  pub offs : ℕ
  pub len : ℕ
  pub maxval : ℕ
  pub rowlen : ℕ
  pub stride : ℕ

-- The inner loop over single bytes. A byte read as a negative `char` differs from itself by 256,
-- which the stored byte does not show.
pub blk_row8 : BlkCtx → Bytes → ℕ → ℕ → Bytes → Bytes
blk_row8 ctx image zero i out = out
blk_row8 ctx image (suc n) i out =
    blk_row8 ctx image n (i + 1)
      (update out (ctx.offs + i) (inverse8 ctx.maxval (image (ctx.offs + i))))

-- The low 16 bits of `(in[i] << 8) | in[i+1]` where both are signed characters.
pub signed_word : Bytes → ℕ → ℕ
signed_word image i = if ltb (image (i + 1)) 128 then word_at image i else 255 * 256 + image (i + 1)

-- The inner loop over pairs of bytes: `n` rounds.
pub blk_row16 : BlkCtx → Bytes → ℕ → ℕ → Bytes → Bytes
unfolding signed_word
blk_row16 ctx image zero i out = out
blk_row16 ctx image (suc n) i out =
    blk_row16 ctx image n (i + 2)
      (store_word out (ctx.offs + i) (inverse16 ctx.maxval (signed_word image (ctx.offs + i))))

-- One row: the inner loops of `blk_thread` at `base`.
pub blk_row : BlkCtx → Bytes → ℕ → Bytes → Bytes
unfolding blk_row8 blk_row16
blk_row ctx image base out =
    if leb ctx.maxval 255
    then blk_row8 ctx image ctx.rowlen base out
    else blk_row16 ctx image ((ctx.rowlen + 1) / 2) base out

-- The outer loop, on fuel.
pub blk_rows : ℕ → BlkCtx → Bytes → ℕ → Bytes → Bytes
unfolding blk_row
blk_rows zero ctx image base out = out
blk_rows (suc fuel) ctx image base out = elim (leb (base + ctx.rowlen) ctx.len) [
  | true ↦ blk_rows fuel ctx image (base + ctx.stride) (blk_row ctx image base out)
  | false ↦ out
]

-- `blk_thread`, without its clock and its report. A round adds the stride, which is positive.
pub blk_thread : BlkCtx → Bytes → Bytes → Bytes
unfolding blk_rows
blk_thread ctx image out = blk_rows (ctx.len + 1) ctx image 0 out

-- The context that `main` gives thread `i` of the method `blk`.
pub blk_ctx : ℕ → ℕ → ℕ → ℕ → ℕ → BlkCtx
blk_ctx threads width imagewritten maxval i =
    let offs = width * i / threads in
    record {
      offs = offs;
      len = imagewritten - offs;
      maxval = maxval;
      rowlen = width * (i + 1) / threads - offs;
      stride = width;
    }

-- The threads of the method `blk`, each in its turn.
pub run_blocks : ℕ → ℕ → ℕ → ℕ → Bytes → List ℕ → Bytes → Bytes
unfolding blk_thread blk_ctx
run_blocks threads width imagewritten maxval image [] out = out
run_blocks threads width imagewritten maxval image (i ∷ order) out =
    run_blocks threads width imagewritten maxval image order
      (blk_thread (blk_ctx threads width imagewritten maxval i) image out)
