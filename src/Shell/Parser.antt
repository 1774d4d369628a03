-- ===== src/Shell/Parser.antt =====
-- The parser of lab5/zad1/main.c, a state machine that takes the input in chunks. Pointers into the
-- chunk are offsets, `none` a null pointer; the messages on the error output are left out. `alloc`
-- says which allocations succeed.
use sys_opy.Common.{
  ℕ, zero, suc, ◌+◌, ◌%◌, ◌^◌, Bool, true, false, ◌&&◌, ◌||◌, not, if◌then◌else◌, ltb, leb, ◌==◌,
  ◌>>=◌, Option, none, some, List, [], ◌∷◌, drop, set, get_or, get_elem?,
}
use sys_opy.Shell.Buffer.{Vec, vec_zero, vec_push, Str, str_zero, ss_push, ss_take, c_string}
use sys_opy.Shell.HashMap.{Key, HashMap, map_zero}
use sys_opy.Shell.Pipeline.{Child}

-- `enum sm_state`.
pub data SmState : Type 0 where
  s_invalid : SmState
  s_def_before_word : SmState
  s_def_inside_word : SmState
  s_exp_before_word : SmState
  s_exp_inside_word : SmState
  s_any_before_word : SmState
  s_any_inside_word : SmState

-- `IS_INSIDE`, `IS_DEF`, `IS_EXP`: each bit of -1 is set.
abbrev pub is_inside : SmState → Bool
is_inside s_def_before_word = false
is_inside s_exp_before_word = false
is_inside s_any_before_word = false
is_inside _ = true

abbrev pub is_def : SmState → Bool
is_def s_exp_before_word = false
is_def s_exp_inside_word = false
is_def _ = true

abbrev pub is_exp : SmState → Bool
is_exp s_def_before_word = false
is_exp s_def_inside_word = false
is_exp _ = true

-- `*s |= M_INSIDE` and `*s &= ~M_INSIDE` at the states they are applied to.
abbrev pub enter_word : SmState → SmState
enter_word s_def_before_word = s_def_inside_word
enter_word s_exp_before_word = s_exp_inside_word
enter_word s_any_before_word = s_any_inside_word
enter_word s = s

abbrev pub leave_word : SmState → SmState
leave_word s_def_inside_word = s_def_before_word
leave_word s_exp_inside_word = s_exp_before_word
leave_word s_any_inside_word = s_any_before_word
leave_word s = s

-- `struct sm_data`, with the pipelines that were run.
pub record SmData : Type 0 where
  pub lineno : ℕ
  pub definitions : HashMap (Vec Key)
  pub cur_expr : Vec Key
  pub scratch : Str
  pub ran : List (List (Child Key))

unfoldable pub parser_init : SmData × SmState
parser_init = (
  record { lineno = 1; definitions = map_zero; cur_expr = vec_zero; scratch = str_zero; ran = [] },
  s_any_before_word,
)

-- The chunk's pointers: `begin`, and the next newline, equals sign and pipe.
pub record Cursor : Type 0 where
  pub begin : ℕ
  pub nl : Option ℕ
  pub eq : Option ℕ
  pub pi : Option ℕ

-- The first place of `c`, counted from `at`.
pub find : ℕ → List ℕ → ℕ → Option ℕ
find c [] at = none
find c (x ∷ xs) at = let rest = find c xs (at + 1) in if x == c then some at else rest

-- `memchr(begin, c, end - begin)`.
unfoldable pub memchr : List ℕ → ℕ → ℕ → Option ℕ
unfolding find
memchr buf begin c = find c (drop begin buf) begin

-- What a part of the loop's body comes to: the function returns, the process ends, or it goes on.
pub data Round : Type 0 where
  returns : SmData → SmState → Round
  aborted : Round
  onward : SmData → SmState → Cursor → Round

-- The blanks before a word.
pub leading_spaces : List ℕ → ℕ
leading_spaces [] = 0
leading_spaces (c ∷ cs) = let rest = leading_spaces cs in if c == b' ' then suc rest else 0

-- Whether a word begins: its state and place, or what the part comes to without one.
pub data Begin : Type 0 where
  in_word : SmState → Cursor → Begin
  other : Round → Begin

-- The first character of a word; `cur.begin` stands on it.
pub first_char : List ℕ → SmData → SmState → Cursor → ℕ → Begin
unfolding memchr
first_char buf ctx s cur c =
    let invalid = other (returns ctx s_invalid) in
    if (c == b'=') || (c == b'|')
    then invalid
    else if c == b'\n'
    then elim s [
      | s_any_before_word ↦ other (
          onward (record ctx { lineno = (ctx.lineno + 1) % 2 ^ 64 }) s_any_before_word
            (record cur { begin = cur.begin + 1; nl = memchr buf (cur.begin + 1) b'\n' }))
      | _ ↦ invalid
    ]
    else if ltb c 0x20 || leb 128 c
    then invalid
    else in_word (enter_word s) cur

-- The part under `!IS_INSIDE(*s)`.
unfoldable pub begin_word : List ℕ → SmData → SmState → Cursor → Begin
unfolding leading_spaces first_char
begin_word buf ctx s cur =
    let begin = cur.begin + leading_spaces (drop cur.begin buf) in
    elim (get_elem? buf begin) [
      | none ↦ other (returns ctx s)
      | some c ↦ first_char buf ctx s (record cur { begin = begin }) c
    ]

-- `e` if it is a pointer before `t`.
abbrev pub earlier : Option ℕ → Option ℕ → Option ℕ
earlier t none = t
earlier none (some e) = some e
earlier (some t) (some e) = if ltb e t then some e else some t

abbrev pub only_def : SmState → Bool
only_def s = is_def s && not (is_exp s)

-- Where the word ends: an equals sign does not end one of a definition.
unfoldable pub terminator : SmState → Cursor → Option ℕ
terminator s cur = earlier (if only_def s then cur.nl else earlier cur.nl cur.eq) cur.pi

-- The loop that strips blanks; it reads in front of the block when nothing else is left.
pub strip : ℕ → List ℕ → Option (ℕ × List ℕ)
strip zero block = none
strip (suc n) block =
    let rest = strip n (set block n 0) in
    if get_or block n 0 == b' ' then rest else some (suc n, block)

-- The characters of a word that ends in the chunk go to the expression.
unfoldable pub finish_word : (ℕ → Bool) → SmData → List ℕ → Option SmData
unfolding vec_push ss_push ss_take strip c_string
finish_word alloc ctx word = do
  pushed ← ss_push alloc ctx.scratch word
  block ← pushed.block
  (len, stripped) ← strip pushed.len block
  let (taken, scratch) = ss_take (record pushed { len = len; block = some stripped }) in
      do
        chars ← taken
        expr ← vec_push alloc ctx.cur_expr (c_string chars)
        some (record ctx { scratch = scratch; cur_expr = expr })
