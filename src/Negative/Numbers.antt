-- ===== src/Negative/Numbers.antt =====
-- lab8/main.c: what the threads of the method `num` leave in each byte.
use sys_opy.Common.{
  ℕ, zero, suc, ◌+◌, ◌-◌, ◌≤◌, ◌<◌, ◌≡◌, ◌∙◌, Bool, true, ◌&&◌, if◌then◌else◌, ltb, leb, arith,
  List, [], ◌∷◌, inl, inr,
}
use sys_opy.Common.Family.{update}
use sys_opy.Negative.{Bytes, ValCtx, inverse8, is_mine, val_loop8, val_thread, val_ctx, run_numbers}
use sys_opy.Negative.Partition.{share_of, Contains, Covers}

val_loop8_at :
    (ctx : ValCtx) (image : Bytes) (n i : ℕ) (out : Bytes) (p : ℕ)
    → val_loop8 ctx image n i out p ≡ (
        if (leb i p && ltb p (i + n)) && is_mine ctx (image p)
        then inverse8 ctx.maxval (image p)
        else out p)
unfolding val_loop8
val_loop8_at ctx image zero i out p = ground arith
val_loop8_at ctx image (suc n) i out p =
    val_loop8_at ctx image n (i + 1)
      (if is_mine ctx (image i) then update out i (inverse8 ctx.maxval (image i)) else out) p
    ∙ ground arith

-- The writes of any thread leave an inverted byte inverted.
val_thread_at :
    (ctx : ValCtx) (image out : Bytes) (p : ℕ)
    → ctx.maxval ≤ 255
    → val_thread ctx image out p
      ≡ (if ltb p ctx.len && is_mine ctx (image p) then inverse8 ctx.maxval (image p) else out p)
unfolding val_thread
val_thread_at ctx image out p small = ground (arith, val_loop8_at ctx image ctx.len 0 out p)

module _ (threads imagewritten maxval : ℕ) (image : Bytes) (small : maxval ≤ 255) (p : ℕ)
    (inside : p < imagewritten) where
  abbrev mine : ℕ → Bool
  mine k = is_mine (val_ctx threads imagewritten maxval k) (image p)

  turn_at :
      (k : ℕ) (out : Bytes)
      → val_thread (val_ctx threads imagewritten maxval k) image out p
        ≡ (if mine k then inverse8 maxval (image p) else out p)
  unfolding val_ctx
  turn_at k out =
      ground (arith, val_thread_at (val_ctx threads imagewritten maxval k) image out p small)

  run_numbers_stays :
      (order : List ℕ) (out : Bytes)
      → out p ≡ inverse8 maxval (image p)
      → run_numbers threads imagewritten maxval image order out p ≡ inverse8 maxval (image p)
  unfolding run_numbers
  run_numbers_stays [] out e = e
  run_numbers_stays (k ∷ order) out e =
      run_numbers_stays order (val_thread (val_ctx threads imagewritten maxval k) image out)
        (ground (arith, turn_at k out))

  run_numbers_hits :
      (k : ℕ) (order : List ℕ) (out : Bytes)
      → mine k ≡ true
      → Contains k order
      → run_numbers threads imagewritten maxval image order out p ≡ inverse8 maxval (image p)
  unfolding run_numbers
  run_numbers_hits k [] out m h = absurd h
  run_numbers_hits k (x ∷ order) out m (inl e) =
      run_numbers_stays order (val_thread (val_ctx threads imagewritten maxval x) image out)
        (ground (arith, turn_at x out))
  run_numbers_hits k (x ∷ order) out m (inr h) =
      run_numbers_hits k order (val_thread (val_ctx threads imagewritten maxval x) image out) m h

-- With the method `num` on single bytes, whatever the number of threads and the order in which all
-- of them run, every byte of the image comes out as its inverse.
pub run_numbers_lem :
    (threads imagewritten maxval : ℕ) (image out : Bytes) (order : List ℕ)
    → 0 < threads
    → maxval ≤ 255
    → Covers threads order
    → (p : ℕ) → p < imagewritten
    → image p ≤ maxval
    → run_numbers threads imagewritten maxval image order out p ≡ maxval - image p
run_numbers_lem threads imagewritten maxval image out order pos small all p inside bright =
    let (k, lt, lo, hi) = share_of (maxval + 1) threads (image p) pos (omega arith) in
    run_numbers_hits threads imagewritten maxval image small p inside k order out
      (unfold is_mine val_ctx in ground arith) (all k lt)
    ∙ omega arith
