-- ===== src/Shell/Machine.antt =====
-- The loop of `parser_sm` and the `main` of lab5/zad1/main.c.
use sys_opy.Common.{
  ℕ, zero, suc, ◌+◌, ◌-◌, Bool, true, false, ◌||◌, not, if◌then◌else◌, leb, ◌==◌, Option, none,
  some, List, [], ◌∷◌, take, drop, length, get_or,
}
use sys_opy.Shell.Buffer.{ss_push}
use sys_opy.Shell.HashMap.{Key, hash_clear}
use sys_opy.Shell.Pipeline.{Child}
use sys_opy.Shell.Parser.{
  SmState, s_invalid, is_inside, leave_word, SmData, parser_init, Cursor, Round, returns, aborted,
  onward, memchr, in_word, other, begin_word, terminator, finish_word,
}
use sys_opy.Shell.Lines.{at_newline, at_pipe, at_equals}

-- The last `switch`, at the character that ended the word.
pub switch : (ℕ → Bool) → List ℕ → ℕ → SmData → SmState → Cursor → Round
unfolding at_newline at_pipe at_equals
switch alloc buf c ctx s cur =
    if c == b'\n'
    then at_newline alloc buf ctx s cur
    else if c == b'|'
    then at_pipe buf ctx s cur
    else if c == b'='
    then at_equals buf ctx s cur
    else aborted

-- The loop's body from the word on.
pub word_round : (ℕ → Bool) → List ℕ → SmData → SmState → Cursor → Round
unfolding terminator finish_word switch
word_round alloc buf ctx s cur = elim (terminator s cur) [
  | none ↦ elim (ss_push alloc ctx.scratch (drop cur.begin buf)) [
    | none ↦ aborted
    | some scratch ↦ returns (record ctx { scratch = scratch }) s
  ]
  | some term ↦ elim (finish_word alloc ctx (take (term - cur.begin) (drop cur.begin buf))) [
    | none ↦ aborted
    | some next ↦
        switch alloc buf (get_or buf term 0) next (leave_word s) (record cur { begin = term + 1 })
  ]
]

pub parser_round : (ℕ → Bool) → List ℕ → SmData → SmState → Cursor → Round
unfolding begin_word word_round
parser_round alloc buf ctx s cur =
    if is_inside s then word_round alloc buf ctx s cur else elim (begin_word buf ctx s cur) [
      | in_word s' cur' ↦ word_round alloc buf ctx s' cur'
      | other round ↦ round
    ]

-- How a call of `parser_sm` comes out; `unfinished` is a loop that has not ended on its fuel.
pub data Outcome : Type 0 where
  finished : SmData → SmState → Outcome
  died : Outcome
  unfinished : Outcome

abbrev pub is_invalid : SmState → Bool
is_invalid s_invalid = true
is_invalid _ = false

pub parser_loop : ℕ → (ℕ → Bool) → List ℕ → SmData → SmState → Cursor → Outcome
unfolding parser_round
parser_loop zero alloc buf ctx s cur = unfinished
parser_loop (suc fuel) alloc buf ctx s cur =
    if leb (length buf) cur.begin || is_invalid s
    then finished ctx s
    else elim (parser_round alloc buf ctx s cur) [
      | returns ctx' s' ↦ finished ctx' s'
      | aborted ↦ died
      | onward ctx' s' cur' ↦ parser_loop fuel alloc buf ctx' s' cur'
    ]

-- Each round passes a character of the chunk.
pub parser_sm : (ℕ → Bool) → SmData → SmState → List ℕ → Outcome
unfolding parser_loop memchr
parser_sm alloc ctx s buf =
    parser_loop (length buf + 1) alloc buf ctx s (record {
      begin = 0;
      nl = memchr buf 0 b'\n';
      eq = memchr buf 0 b'=';
      pi = memchr buf 0 b'|';
    })

-- The exit status and the pipelines that were run; `none` when the process ends in another way.
pub run_chunks :
    (ℕ → Bool) → Bool → SmData → SmState → List (List ℕ) → Option (ℕ × List (List (Child Key)))
unfolding parser_sm
run_chunks alloc read_fails ctx s [] =
    if read_fails
    then some (1, ctx.ran)
    else let ctx' = record ctx { definitions = hash_clear ctx.definitions } in some (0, ctx'.ran)
run_chunks alloc read_fails ctx s (chunk ∷ chunks) = elim (parser_sm alloc ctx s chunk) [
  | finished ctx' s' ↦
      if is_invalid s' then some (1, ctx'.ran) else run_chunks alloc read_fails ctx' s' chunks
  | died ↦ none
  | unfinished ↦ none
]

-- `file` is what the calls of `read` return, `none` if the file does not open.
pub main : (ℕ → Bool) → ℕ → Option (List (List ℕ)) → Bool → Option (ℕ × List (List (Child Key)))
unfolding run_chunks parser_init
main alloc argc file read_fails = if not (argc == 2) then some (2, []) else elim file [
  | none ↦ some (1, [])
  | some chunks ↦ let (ctx, s) = parser_init in run_chunks alloc read_fails ctx s chunks
]
