-- ===== src/BlankLines/Rank.antt =====
-- What lab2/zad1/main.c has left to do, which each round makes less.
use sys_opy.Common.{
  ℕ, zero, suc, ◌+◌, ◌-◌, ◌*◌, ◌<◌, ◌≤◌, ◌≡◌, ap, Bool, true, false, if◌then◌else◌, ltb, ◌==◌, List,
  length, arith,
}
use sys_opy.BlankLines.{Filter}
use sys_opy.BlankLines.Invariant.{Reading, line_start, place}

-- What is left to do: a line is read at most twice.
pub rank : ℕ → Bool → ℕ → ℕ → ℕ
rank len w l p = if w then (len - p) * (len + 2) else (len - l) * (len + 2) + (len - p) + 1

abbrev pub rank_of : List ℕ → Filter → ℕ
rank_of file st =
    2 * rank (length file) st.writing (line_start st) (place st)
    + (if ltb st.curpos (length st.buf) then 0 else if length st.buf == 0 then 0 else 1)

mul_gap : (a b k : ℕ) → a < b → a * k + k ≤ b * k
mul_gap a zero k h = absurd (omega arith)
mul_gap zero (suc b) k h = omega arith
mul_gap (suc a) (suc b) k h = omega (arith, mul_gap a b k (omega arith))

-- The three ways in which less is left.
pub rank_write : (len l l' p p' : ℕ) → p < p' → p < len → rank len true l' p' < rank len true l p
unfolding rank
rank_write len l l' p p' h b = omega (arith, mul_gap (len - p') (len - p) (len + 2) (omega arith))

pub rank_line : (len l p p' : ℕ) → p < p' → p < len → rank len false p' p' < rank len true l p
unfolding rank
rank_line len l p p' h b = omega (arith, mul_gap (len - p') (len - p) (len + 2) (omega arith))

pub rank_blank :
    (len l p : ℕ) → l ≤ p → p < len → rank len false (suc p) (suc p) < rank len false l p
unfolding rank
rank_blank len l p h b = omega (arith, mul_gap (len - suc p) (len - l) (len + 2) (omega arith))

pub rank_space : (len l p : ℕ) → p < len → rank len false l (suc p) < rank len false l p
unfolding rank
rank_space len l p b = omega arith

pub rank_text : (len l p : ℕ) → rank len true l l < rank len false l p
unfolding rank
rank_text len l p = omega arith

pub rank_first :
    (len flag : ℕ)
    → flag ≤ 1
    → 2 * rank len false (0 + 0) (0 + 0) + flag < 2 * (len + 1) * (len + 2) + 2
unfolding rank
rank_first len flag h =
    let whole : len - (0 + 0) ≡ len = omega arith in
    let sum : 2 * (len + 1) * (len + 2) ≡ 2 * (len * (len + 2)) + 2 * (len + 2) = omega arith in
    omega (arith, ap (λ t. t * (len + 2)) whole, sum)

module _ (size : ℕ) (file : List ℕ) where
  abbrev pub Less : Filter → Filter → Type 0
  Less st st' = Reading size file st' × (rank_of file st' < rank_of file st)

  -- Within the buffer it is enough that the rank is less.
  pub less :
      (st st' : Filter)
      → st.curpos < length st.buf
      → rank (length file) st'.writing (line_start st') (place st')
        < rank (length file) st.writing (line_start st) (place st)
      → rank_of file st' < rank_of file st
  less st st' h lt = ground (arith, h, lt)
