-- ===== src/BlankLines/Rounds.antt =====
-- The rounds of the inner loop of lab2/zad1/main.c that write.
use sys_opy.Common.{
  ℕ, suc, ◌+◌, ◌<◌, ◌≤◌, ◌≡◌, ap, Bool, true, false, none, some, List, ◌++◌, length, take, drop,
  arith, length-drop,
}
use sys_opy.BlankLines.{find_eol, Filter, write_round}
use sys_opy.BlankLines.Content.{Content, Content-rest, Content-line, find_eol_bound}
use mathlib.Core.Path.{subst}
use sys_opy.BlankLines.Invariant.{Reading, line_start, place, split_file, inside}
use sys_opy.BlankLines.Rank.{rank, rank_write, rank_line, Less, less}

module _ (size : ℕ) (file : List ℕ) where
  module _ (st : Filter) (r : Reading size file st) (inner : st.curpos < length st.buf) where
    pub was : (w : Bool) → st.writing ≡ w → Content file w st.out (line_start st) (place st)
    was w e = subst (λ b. Content file b st.out (line_start st) (place st)) e r.content

    pub rank_was :
        (w : Bool)
        → st.writing ≡ w
        → rank (length file) st.writing (line_start st) (place st)
          ≡ rank (length file) w (line_start st) (place st)
    rank_was w e = ap (λ b. rank (length file) b (line_start st) (place st)) e

    pub before_end : place st < length file
    before_end = omega (arith, inside size file st r (suc st.curpos) inner (omega arith))

    pub write_rest :
        st.writing ≡ true
        → find_eol (drop st.curpos st.buf) ≡ none
        → Less size file st (write_round st)
    unfolding write_round
    write_rest w e =
        let rest = drop st.curpos st.buf in
        let st' : Filter = record st {
          out = st.out ++ rest;
          curpos = length st.buf;
          writing = true;
        } in
        let same : write_round st ≡ st' =
          rw (e, write_round)
            (ap (λ b. record st { out = st.out ++ rest; curpos = length st.buf; writing = b }) w) in
        let r' : Reading size file st' = record {
          loaded = r.loaded;
          ahead = r.ahead;
          settled = r.settled;
          within = omega arith;
          line_within = r.line_within;
          line_before = omega (arith, r.line_before);
          content =
              Content-rest file st.out (line_start st) (place st) rest (place st') (was true w)
                (split_file size file st r st.curpos (omega arith)) e;
        } in
        let down =
          rank_write (length file) (line_start st) (line_start st) (place st) (place st')
            (omega arith) before_end in
        rw same (r', less size file st st' inner (omega (arith, down, rank_was true w)))

    pub write_line :
        (i : ℕ)
        → st.writing ≡ true
        → find_eol (drop st.curpos st.buf) ≡ some i
        → Less size file st (write_round st)
    unfolding write_round
    write_line i w e =
        let rest = drop st.curpos st.buf in
        let later = drop (st.curseekoff + length st.buf) file in
        let st' : Filter = record st {
          out = st.out ++ take (suc i) rest;
          curpos = st.curpos + i + 1;
          lineseekoff = st.curseekoff;
          linepos = st.curpos + i + 1;
          writing = false;
        } in
        let one : i + 1 ≡ suc i = omega arith in
        let same : write_round st ≡ st' =
          rw (e, write_round)
            (ap
              (λ t. record st {
                out = st.out ++ take t rest;
                curpos = st.curpos + i + 1;
                lineseekoff = st.curseekoff;
                linepos = st.curpos + i + 1;
                writing = false;
              })
              one) in
        let fits : st.curpos + i + 1 ≤ length st.buf =
          omega (arith, find_eol_bound rest i e, length-drop st.curpos st.buf) in
        let r' : Reading size file st' = record {
          loaded = r.loaded;
          ahead = r.ahead;
          settled = r.settled;
          within = fits;
          line_within = omega (arith, fits, ap length r.loaded);
          line_before = omega arith;
          content =
              Content-line file st.out (line_start st) (place st) rest later i (place st')
                (was true w) (split_file size file st r st.curpos (omega arith)) e (omega arith);
        } in
        let down =
          rank_line (length file) (line_start st) (place st) (place st') (omega arith) before_end in
        rw same (r', less size file st st' inner (omega (arith, down, rank_was true w)))
