-- ===== src/BlankLines.antt =====
-- The filter of lab2/zad1/main.c: it copies the lines of a file that have a character other than
-- white space. The file is a list of bytes and `size` is the size of the buffer. Opening the files
-- and failures to read and write are left out.
pub mod Lines
pub mod OnePass
pub mod Content
pub mod Invariant
pub mod Rank
pub mod Rounds
pub mod Scans
pub mod Finish
pub mod Tests
use sys_opy.Common.{
  ℕ, zero, suc, ◌+◌, ◌-◌, ◌*◌, Bool, true, false, ◌&&◌, ◌||◌, not, if◌then◌else◌, ltb, leb, ◌==◌,
  Option, none, some, List, [], ◌∷◌, ◌++◌, length, take, drop, get_or,
}

unfoldable pub isspace : ℕ → Bool
isspace c = (leb 9 c && leb c 13) || (c == 32)

-- The place of the first newline: `memchr(…, '\n', …)`.
pub find_eol : List ℕ → Option ℕ
find_eol [] = none
find_eol (c ∷ cs) =
    if c == 10 then some 0 else elim (find_eol cs) [ none ↦ none | some i ↦ some (suc i) ]

-- `offset` is the position of the input file, and `out` is what the output file has.
pub record Filter : Type 0 where
  pub offset : ℕ
  pub curseekoff : ℕ
  pub lineseekoff : ℕ
  pub curpos : ℕ
  pub linepos : ℕ
  pub buf : List ℕ
  pub writing : Bool
  pub postseek : Bool
  pub out : List ℕ

abbrev pub start : Filter
start = record {
  offset = 0;
  curseekoff = 0;
  lineseekoff = 0;
  curpos = 0;
  linepos = 0;
  buf = [];
  writing = false;
  postseek = false;
  out = [];
}

-- From the label `read` to the inner loop.
pub read_chunk : ℕ → List ℕ → Filter → Filter
read_chunk size file st =
    let buf = take size (drop st.offset file) in
    record st {
      offset = st.offset + length buf;
      buf = buf;
      curpos = if st.postseek then st.linepos else 0;
      curseekoff = if st.postseek then st.lineseekoff else st.curseekoff;
      postseek = false;
    }

-- A round of the inner loop that writes.
pub write_round : Filter → Filter
unfolding find_eol
write_round st =
    let rest = drop st.curpos st.buf in
    elim (find_eol rest) [
      | none ↦ record st { out = st.out ++ rest; curpos = length st.buf }
      | some i ↦ record st {
        out = st.out ++ take (i + 1) rest;
        curpos = st.curpos + i + 1;
        lineseekoff = st.curseekoff;
        linepos = st.curpos + i + 1;
        writing = false;
      }
    ]

-- A round of the inner loop that looks for a character other than white space.
pub scan_round : ℕ → List ℕ → Filter → Filter
unfolding isspace read_chunk
scan_round size file st =
    let c = get_or st.buf st.curpos 0 in
    if c == 10
    then record st { lineseekoff = st.curseekoff; curpos = st.curpos + 1; linepos = st.curpos + 1 }
    else if not (isspace c)
    then if not (st.curseekoff == st.lineseekoff)
      then read_chunk size file (record st {
        offset = st.lineseekoff;
        curseekoff = st.lineseekoff;
        writing = true;
        postseek = true;
      })
      else record st { curpos = st.linepos; writing = true }
    else record st { curpos = st.curpos + 1 }

-- A round of the inner loop, or the end of a round of the outer one and the next read.
pub next_round : ℕ → List ℕ → Filter → Filter
unfolding read_chunk write_round scan_round
next_round size file st =
    if ltb st.curpos (length st.buf)
    then if st.writing then write_round st else scan_round size file st
    else read_chunk size file (record st { curseekoff = st.curseekoff + length st.buf })

-- The end of the outer loop: the last read gave nothing.
pub at_end : Filter → Bool
at_end st = length st.buf == 0

pub filter_loop : ℕ → ℕ → List ℕ → Filter → Option (List ℕ)
unfolding next_round at_end
filter_loop zero size file st = none
filter_loop (suc fuel) size file st =
    let rest = filter_loop fuel size file (next_round size file st) in
    if at_end st then some st.out else rest

-- The bound on the rounds is generous: each line is read again at most once.
unfoldable pub filter_file : ℕ → List ℕ → Option (List ℕ)
unfolding filter_loop read_chunk
filter_file size file =
    filter_loop (2 * (length file + 1) * (length file + 2) + 2) size file
      (read_chunk size file start)
