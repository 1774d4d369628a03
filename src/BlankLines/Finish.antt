-- ===== src/BlankLines/Finish.antt =====
-- The whole run of lab2/zad1/main.c.
use sys_opy.Common.{
  ℕ, ℕ_discrete, zero, suc, ◌+◌, ◌*◌, ◌<◌, ◌≤◌, ◌≡◌, refl, sym, ap, ◌∙◌, Bool, true, false,
  if◌then◌else◌, ltb, ◌==◌, some, List, [], ◌++◌, length, take, drop, get_or, arith, inl, inr,
  append-nil, Bool-cases, Option-cases, length-take, length_zero,
}
use mathlib.Core.Path.{subst}
use sys_opy.BlankLines.{
  isspace, find_eol, Filter, start, read_chunk, write_round, scan_round, next_round, at_end,
  filter_loop, filter_file,
}
use sys_opy.BlankLines.Lines.{lines_of, text_lines}
use sys_opy.BlankLines.OnePass.{scan_on, write_on, nothing_on, empty_line, scan_on-lines}
use sys_opy.BlankLines.Content.{Content}
use sys_opy.BlankLines.Invariant.{Reading, place, line_start}
use sys_opy.BlankLines.Rank.{Less, rank, rank_of, rank_first}
use sys_opy.BlankLines.Rounds.{write_rest, write_line}
use sys_opy.BlankLines.Scans.{scan_blank, scan_space, scan_here, scan_back}

module _ (size : ℕ) (file : List ℕ) where
  on_branch :
      (st : Filter) (b : Bool)
      → st.writing ≡ b
      → Less size file st (if b then write_round st else scan_round size file st)
      → Less size file st (if st.writing then write_round st else scan_round size file st)
  on_branch st b w =
      subst (λ c. Less size file st (if c then write_round st else scan_round size file st)) (sym w)

  inner_round :
      (st : Filter)
      → Reading size file st
      → st.curpos < length st.buf
      → Less size file st (if st.writing then write_round st else scan_round size file st)
  inner_round st r h = elim (Bool-cases st.writing) [
    | inl w ↦ elim (Option-cases (find_eol (drop st.curpos st.buf))) [
      | inl e ↦ on_branch st true w (write_rest size file st r h w e)
      | inr (i, e) ↦ on_branch st true w (write_line size file st r h i w e)
    ]
    | inr w ↦ elim (Bool-cases (get_or st.buf st.curpos 0 == 10)) [
      | inl e ↦ on_branch st false w (scan_blank size file st r h w e)
      | inr ne ↦ elim (Bool-cases (isspace (get_or st.buf st.curpos 0))) [
        | inl e ↦ on_branch st false w (scan_space size file st r h w ne e)
        | inr text ↦ elim (Bool-cases (st.curseekoff == st.lineseekoff)) [
          | inl e ↦ on_branch st false w (scan_here size file st r h w ne text e)
          | inr e ↦ on_branch st false w (scan_back size file st r h w ne text e)
        ]
      ]
    ]
  ]

  outer_round :
      (st : Filter)
      → Reading size file st
      → length st.buf ≤ st.curpos
      → 0 < length st.buf
      → Less size file st
          (read_chunk size file (record st { curseekoff = st.curseekoff + length st.buf }))
  unfolding read_chunk
  outer_round st r h pos =
      let st' : Filter = record st {
        offset = st.offset + length (take size (drop st.offset file));
        curseekoff = st.curseekoff + length st.buf;
        curpos = 0;
        buf = take size (drop st.offset file);
        postseek = false;
      } in
      let same : read_chunk size file (record st { curseekoff = st.curseekoff + length st.buf })
          ≡ st' =
        rw r.settled refl in
      let here : place st' ≡ place st = omega (arith, r.within, h) in
      let r' : Reading size file st' = record {
        loaded = ap (λ t. take size (drop t file)) r.ahead;
        ahead = ap (λ t. t + length st'.buf) r.ahead;
        settled = refl;
        within = omega arith;
        line_within = r.line_within;
        line_before = omega (arith, here, r.line_before);
        content =
            subst (λ t. Content file st.writing st.out (line_start st) t) (sym here) r.content;
      } in
      let left = ap (λ t. rank (length file) st.writing (line_start st) t) here in
      rw same (r', ground (arith, left, h, pos))

  next_round_lem :
      (st : Filter)
      → Reading size file st
      → 0 < length st.buf
      → Less size file st (next_round size file st)
  unfolding next_round
  next_round_lem st r pos =
      let inner = if st.writing then write_round st else scan_round size file st in
      let outer = read_chunk size file (record st { curseekoff = st.curseekoff + length st.buf }) in
      elim (Bool-cases (ltb st.curpos (length st.buf))) [
        | inl e ↦
            subst (λ b. Less size file st (if b then inner else outer)) (sym e)
              (inner_round st r (ground (arith, e)))
        | inr e ↦
            subst (λ b. Less size file st (if b then inner else outer)) (sym e)
              (outer_round st r (ground (arith, e)) pos)
      ]

  -- After the last read all is written.
  finished :
      (st : Filter) → 0 < size → Reading size file st → length st.buf ≡ 0 → st.out ≡ scan_on [] file
  finished st some_space r e =
      let here : place st ≡ st.curseekoff = omega (arith, r.within, e) in
      let all : length (drop st.curseekoff file) ≡ 0 =
        omega (arith, ap length r.loaded, e, length-take size (drop st.curseekoff file)) in
      let nothing : drop (place st) file ≡ [] =
        ap (λ t. drop t file) here ∙ length_zero (drop st.curseekoff file) all in
      elim r.content [
        | inl (_, c) ↦
            sym (append-nil st.out)
            ∙ ap (λ x. st.out ++ x) (sym (nothing_on []).0 ∙ ap write_on (sym nothing))
            ∙ c
        | inr (_, (acc, _, _, c)) ↦
            sym (append-nil st.out)
            ∙ ap (λ x. st.out ++ x) (sym (nothing_on acc).1 ∙ ap (scan_on acc) (sym nothing))
            ∙ c
      ]

  filter_loop_lem :
      (fuel : ℕ) (st : Filter)
      → 0 < size
      → Reading size file st
      → rank_of file st < fuel
      → filter_loop fuel size file st ≡ some (scan_on [] file)
  unfolding filter_loop at_end
  filter_loop_lem zero st some_space r h = absurd (omega arith)
  filter_loop_lem (suc fuel) st some_space r h = elim (ℕ_discrete (length st.buf) 0) [
    | yes e ↦
        let last : (length st.buf == 0) ≡ true = ground (arith, e) in
        rw last (ap some (finished st some_space r e))
    | no ne ↦
        let more : (length st.buf == 0) ≡ false = ground (arith, ne) in
        let (r', lt) = next_round_lem st r (omega (arith, ne)) in
        rw more
          (filter_loop_lem fuel (next_round size file st) some_space r' (omega (arith, lt, h)))
  ]

  first_read : Reading size file (read_chunk size file start)
  unfolding read_chunk
  first_read = record {
    loaded = refl;
    ahead = refl;
    settled = refl;
    within = omega arith;
    line_within = omega arith;
    line_before = omega arith;
    content = inr (refl, ([], empty_line, refl, refl));
  }

-- For any file, and a buffer of any size but 0, the filter ends and has written the lines of the
-- file that have a character other than white space, in their order, and nothing else.
pub filter_file-lines :
    (size : ℕ) (file : List ℕ)
    → 0 < size
    → filter_file size file ≡ some (text_lines (lines_of file))
unfolding filter_file read_chunk
filter_file-lines size file some_space =
    let buf = take size file in
    let flag = if ltb 0 (length buf) then 0 else if length buf == 0 then 0 else 1 in
    let small : flag ≤ 1 = ground arith in
    filter_loop_lem size file (2 * (length file + 1) * (length file + 2) + 2)
      (read_chunk size file start) some_space (first_read size file)
      (rank_first (length file) flag small)
    ∙ ap some (scan_on-lines file)
