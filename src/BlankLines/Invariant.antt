-- ===== src/BlankLines/Invariant.antt =====
-- What holds between the rounds of lab2/zad1/main.c.
use sys_opy.Common.{
  ℕ, suc, ◌+◌, ◌<◌, ◌≤◌, ◌≡◌, sym, ap, ◌∙◌, false, List, ◌∷◌, ◌++◌, length, take, drop, get_or,
  arith, drop-drop, drop-take, drop-get_or, length-take, length-drop,
}
use sys_opy.BlankLines.{Filter}
use sys_opy.BlankLines.Content.{Content}

-- The first place of the line, and the place that is read next.
abbrev pub line_start : Filter → ℕ
line_start st = st.lineseekoff + st.linepos

abbrev pub place : Filter → ℕ
place st = st.curseekoff + st.curpos

pub record Reading (size : ℕ) (file : List ℕ) (st : Filter) : Type 0 where
  pub loaded : st.buf ≡ take size (drop st.curseekoff file)
  pub ahead : st.offset ≡ st.curseekoff + length st.buf
  pub settled : st.postseek ≡ false
  pub within : st.curpos ≤ length st.buf
  pub line_within : st.linepos ≤ length (take size (drop st.lineseekoff file))
  pub line_before : line_start st ≤ place st
  pub content : Content file st.writing st.out (line_start st) (place st)

module _ (size : ℕ) (file : List ℕ) where
  -- The buffer from `m` on, and what follows it in the file.
  pub split_file :
      (st : Filter)
      → Reading size file st
      → (m : ℕ) → m ≤ length st.buf
      → drop (st.curseekoff + m) file ≡ drop m st.buf ++ drop (st.curseekoff + length st.buf) file
  split_file st r m h =
      let rest = drop st.curseekoff file in
      let same = r.loaded in
      drop-drop st.curseekoff m file
      ∙ drop-take size m rest (omega (arith, h, ap length same))
      ∙ ap (λ b. drop m b ++ drop (length b) rest) (sym same)
      ∙ ap (λ t. drop m st.buf ++ t) (sym (drop-drop st.curseekoff (length st.buf) file))

  pub byte_at :
      (st : Filter)
      → Reading size file st
      → st.curpos < length st.buf
      → drop (place st) file ≡ get_or st.buf st.curpos 0 ∷ drop (suc (place st)) file
  byte_at st r h =
      let rest = drop (st.curseekoff + length st.buf) file in
      let next : st.curseekoff + suc st.curpos ≡ suc (place st) = omega arith in
      split_file st r st.curpos (omega arith)
      ∙ ap (λ b. b ++ rest) (drop-get_or st.curpos st.buf 0 h)
      ∙ ap (λ b. get_or st.buf st.curpos 0 ∷ b)
          (sym (split_file st r (suc st.curpos) h) ∙ ap (λ t. drop t file) next)

  pub inside :
      (st : Filter)
      → Reading size file st
      → (m : ℕ) → m ≤ length st.buf
      → 0 < length st.buf
      → st.curseekoff + m ≤ length file
  inside st r m h pos = omega (
    arith,
    ap length r.loaded,
    length-take size (drop st.curseekoff file),
    length-drop st.curseekoff file,
  )
