-- ===== src/BlankLines/Scans.antt =====
-- The rounds of the inner loop of lab2/zad1/main.c that look for a line with text.
use sys_opy.Common.{
  ℕ, suc, ◌+◌, ◌<◌, ◌≡◌, refl, sym, ap, true, false, ◌==◌, List, length, take, drop, get_or, arith,
}
use sys_opy.BlankLines.{isspace, Filter, read_chunk, scan_round}
use sys_opy.BlankLines.Content.{Content, Content-blank, Content-space, Content-text}
use mathlib.Core.Path.{subst}
use sys_opy.BlankLines.Invariant.{Reading, line_start, place, byte_at}
use sys_opy.BlankLines.Rank.{rank, rank_blank, rank_space, rank_text, Less, less}
use sys_opy.BlankLines.Rounds.{was, rank_was, before_end}

module _ (size : ℕ) (file : List ℕ) where
  module _ (st : Filter) (r : Reading size file st) (inner : st.curpos < length st.buf) where
    module _ (w : st.writing ≡ false) where
      pub scan_blank :
          (get_or st.buf st.curpos 0 == 10) ≡ true → Less size file st (scan_round size file st)
      unfolding scan_round
      scan_blank e =
          let st' : Filter = record st {
            lineseekoff = st.curseekoff;
            curpos = st.curpos + 1;
            linepos = st.curpos + 1;
            writing = false;
          } in
          let same : scan_round size file st ≡ st' =
            rw (e, scan_round)
              (ap
                (λ b. record st {
                  lineseekoff = st.curseekoff;
                  curpos = st.curpos + 1;
                  linepos = st.curpos + 1;
                  writing = b;
                })
                w) in
          let next : place st' ≡ suc (place st) = omega arith in
          let c =
            Content-blank file st.out (line_start st) (place st) (get_or st.buf st.curpos 0)
              (byte_at size file st r inner) (was size file st r inner false w)
              (ground (arith, e)) in
          let r' : Reading size file st' = record {
            loaded = r.loaded;
            ahead = r.ahead;
            settled = r.settled;
            within = omega arith;
            line_within = omega (arith, ap length r.loaded);
            line_before = omega arith;
            content = subst (λ t. Content file false st.out t t) (sym next) c;
          } in
          let down =
            rank_blank (length file) (line_start st) (place st) r.line_before
              (before_end size file st r inner) in
          let down' : rank (length file) false (place st') (place st')
              < rank (length file) false (line_start st) (place st) =
            subst
              (λ t.
                rank (length file) false t t < rank (length file) false (line_start st) (place st))
              (sym next) down in
          rw same (
            r',
            less size file st st' inner
                (omega (arith, down', rank_was size file st r inner false w)),
          )

      module _ (ne : (get_or st.buf st.curpos 0 == 10) ≡ false) where
        pub scan_space :
            isspace (get_or st.buf st.curpos 0) ≡ true → Less size file st (scan_round size file st)
        unfolding scan_round
        scan_space e =
            let st' : Filter = record st { curpos = st.curpos + 1; writing = false } in
            let same : scan_round size file st ≡ st' =
              rw (ne, e, scan_round)
                (ap (λ b. record st { curpos = st.curpos + 1; writing = b }) w) in
            let next : place st' ≡ suc (place st) = omega arith in
            let c =
              Content-space file st.out (line_start st) (place st) (get_or st.buf st.curpos 0)
                (byte_at size file st r inner) (was size file st r inner false w) ne e in
            let r' : Reading size file st' = record {
              loaded = r.loaded;
              ahead = r.ahead;
              settled = r.settled;
              within = omega arith;
              line_within = r.line_within;
              line_before = omega (arith, r.line_before);
              content = subst (λ t. Content file false st.out (line_start st) t) (sym next) c;
            } in
            let down =
              rank_space (length file) (line_start st) (place st)
                (before_end size file st r inner) in
            let down' : rank (length file) false (line_start st) (place st')
                < rank (length file) false (line_start st) (place st) =
              subst
                (λ t.
                  rank (length file) false (line_start st) t
                  < rank (length file) false (line_start st) (place st))
                (sym next) down in
            rw same (
              r',
              less size file st st' inner
                  (omega (arith, down', rank_was size file st r inner false w)),
            )

        module _ (text : isspace (get_or st.buf st.curpos 0) ≡ false) where
          text-Content : Content file true st.out (line_start st) (line_start st)
          text-Content =
              Content-text file st.out (line_start st) (place st) (get_or st.buf st.curpos 0)
                (byte_at size file st r inner) (was size file st r inner false w) ne text

          pub scan_here :
              (st.curseekoff == st.lineseekoff) ≡ true → Less size file st (scan_round size file st)
          unfolding scan_round
          scan_here e =
              let st' : Filter = record st { curpos = st.linepos; writing = true } in
              let chunk : st.lineseekoff ≡ st.curseekoff = ground (arith, e) in
              let next : place st' ≡ line_start st = omega (arith, chunk) in
              let same : scan_round size file st ≡ st' = rw (ne, text, e, scan_round) refl in
              let r' : Reading size file st' = record {
                loaded = r.loaded;
                ahead = r.ahead;
                settled = r.settled;
                within = omega (
                  arith,
                  r.line_within,
                  ap length r.loaded,
                  ap (λ t. length (take size (drop t file))) chunk,
                );
                line_within = r.line_within;
                line_before = omega (arith, next);
                content =
                    subst (λ t. Content file true st.out (line_start st) t) (sym next) text-Content;
              } in
              let down = rank_text (length file) (line_start st) (place st) in
              let down' : rank (length file) true (line_start st) (place st')
                  < rank (length file) false (line_start st) (place st) =
                subst
                  (λ t.
                    rank (length file) true (line_start st) t
                    < rank (length file) false (line_start st) (place st))
                  (sym next) down in
              rw same (
                r',
                less size file st st' inner
                    (omega (arith, down', rank_was size file st r inner false w)),
              )

          pub scan_back :
              (st.curseekoff == st.lineseekoff) ≡ false
              → Less size file st (scan_round size file st)
          unfolding scan_round read_chunk
          scan_back e =
              let buf = take size (drop st.lineseekoff file) in
              let st' : Filter = record st {
                offset = st.lineseekoff + length buf;
                curseekoff = st.lineseekoff;
                curpos = st.linepos;
                buf = buf;
                writing = true;
                postseek = false;
              } in
              let same : scan_round size file st ≡ st' = rw (ne, text, e, scan_round) refl in
              let r' : Reading size file st' = record {
                loaded = refl;
                ahead = refl;
                settled = refl;
                within = r.line_within;
                line_within = r.line_within;
                line_before = omega arith;
                content = text-Content;
              } in
              let down = rank_text (length file) (line_start st) (place st) in
              rw same (
                r',
                less size file st st' inner
                    (omega (arith, down, rank_was size file st r inner false w)),
              )
