-- ===== src/Negative/Tokens.antt =====
-- The header of an image as lab8/main.c reads it: the state of the reader, and what it does between
-- the tokens and at each of them. `p` stands for the bytes from the pointer `p` on, an empty list
-- being the end of the buffer, where a 0 follows. A number is a `long` and is kept as an `int`: the
-- fields of the format hold its 32 bits, so that those from 2 ^ 31 on stand for negative numbers. A
-- size of the image that does not fit into an `int` is `overflow`, since C does not say what follows.
use sys_opy.Common.{
  ℕ, suc, ◌-◌, ◌*◌, ◌%◌, ◌^◌, Bool, true, false, ◌&&◌, ◌||◌, not, if◌then◌else◌, ltb, leb, ◌==◌,
  Option, none, some, List, [], ◌∷◌,
}
use sys_opy.Common.Int.{pos}
use sys_opy.BlankLines.{isspace}
use sys_opy.Strtol.{strtol}
use sys_opy.Negative.Output.{Format}

-- The state is 0 before the header, 1, 2 and 3 before a number and 4 in the image.
pub record Reader : Type 0 where
  pub state : ℕ
  pub format : Format
  pub image : List ℕ
  pub incomment : Bool

-- What a part of the loop comes to: more bytes are wanted, the loop goes on, or the reader ends.
pub data Turn : Type 0 where
  more : Reader → List ℕ → Turn
  again : Reader → List ℕ → Turn
  badformat : Turn
  overflow : Turn
  readfinish : Reader → Turn

unfoldable pub then_turn : Turn → (Reader → List ℕ → Turn) → Turn
then_turn (again r p) next = next r p
then_turn other next = other

unfoldable pub skip_spaces : List ℕ → List ℕ
skip_spaces [] = []
skip_spaces (c ∷ cs) = let rest = skip_spaces cs in if isspace c then rest else c ∷ cs

-- Whitespace between the tokens of the header.
unfoldable pub blanks : Reader → List ℕ → Turn
unfolding skip_spaces
blanks r p = if not (ltb 0 r.state && ltb r.state 4) then again r p else elim (skip_spaces p) [
  | [] ↦ more r []
  | c ∷ cs ↦ again (if c == b'#' then record r { incomment = true } else r) (c ∷ cs)
]

unfoldable pub past_newline : List ℕ → Option (List ℕ)
past_newline [] = none
past_newline (c ∷ cs) = let rest = past_newline cs in if c == b'\n' then some cs else rest

-- A comment, and the space behind it where the image follows.
unfoldable pub comment : Reader → List ℕ → Turn
unfolding past_newline
comment r p =
    let r' = record r { incomment = false } in
    if not r.incomment then again r p else elim (past_newline p) [
      | none ↦ more r []
      | some rest ↦
          if not (r.state == 4)
          then again r' rest
          else elim rest [ [] ↦ badformat | c ∷ cs ↦ if isspace c then again r' cs else badformat ]
    ]

unfoldable pub kind : ℕ → Format → Option Format
kind c f =
    if c == b'1'
    then some (record f { binary = false; hasmaxval = false })
    else if c == b'2'
    then some (record f { binary = false })
    else if c == b'3'
    then some (record f { binary = false; channels = 3 })
    else if c == b'4'
    then some (record f { bit = true; hasmaxval = false })
    else if c == b'5'
    then some (record f { binary = true })
    else if c == b'6'
    then some (record f { binary = true; channels = 3 })
    else none

-- The start of a comment, or a space, behind a token.
unfoldable pub behind_token : Reader → ℕ → List ℕ → Turn
behind_token r c p =
    if c == b'#'
    then again (record r { incomment = true }) p
    else if isspace c
    then again r p
    else badformat

unfoldable pub magic : Reader → List ℕ → Turn
unfolding kind behind_token
magic r (a ∷ (b ∷ (c ∷ cs))) = if not (a == b'P') then badformat else elim (kind b r.format) [
  | none ↦ badformat
  | some f ↦ behind_token (record r { state = 1; format = f }) c cs
]
magic r p = more r p

-- Whether the 32 bits are those of a negative number, and its absolute value.
abbrev pub is_below_zero : ℕ → Bool
is_below_zero n = leb (2 ^ 31) n

abbrev pub magnitude : ℕ → ℕ
magnitude n = if is_below_zero n then 2 ^ 32 - n else n

-- `maxval > 255` and `val > maxval`.
abbrev pub is_wide : ℕ → Bool
is_wide maxval = ltb 255 maxval && not (is_below_zero maxval)

abbrev pub is_above : ℕ → ℕ → Bool
is_above maxval val = is_below_zero maxval || ltb maxval val

-- The product `width * height * channels * (maxval <= 255 ? 1 : 2)`: whether just one of its factors
-- is negative, and its absolute value.
abbrev pub is_negative_size : Format → Bool
is_negative_size f =
    if is_below_zero f.width then not (is_below_zero f.height) else is_below_zero f.height

unfoldable pub size : Format → ℕ
size f = magnitude f.width * magnitude f.height * f.channels * (if is_wide f.maxval then 2 else 1)

-- Whether the product does not fit into an `int`.
unfoldable pub oversized : Format → Bool
unfolding size
oversized f = if is_negative_size f then ltb (2 ^ 31) (size f) else leb (2 ^ 31) (size f)

-- The number of bytes of the image; below 0 it is that of none.
unfoldable pub limit : Format → ℕ
unfolding size
limit f = if is_negative_size f then 0 else size f

-- The number that was read, and the state that follows.
unfoldable pub set_number : ℕ → Reader → Reader
set_number val r =
    if r.state == 1
    then record r { state = 2; format = record r.format { width = val } }
    else if r.state == 2
    then record r {
      state = if r.format.hasmaxval then 3 else 4;
      format = record r.format { height = val };
    }
    else record r { state = 4; format = record r.format { maxval = val } }

unfoldable pub number : Reader → List ℕ → Turn
unfolding set_number behind_token oversized
number r p = elim (strtol p) [
  | none ↦ badformat
  | some (val, fits, rest) ↦ if not fits then badformat else elim rest [
    | [] ↦ more r p
    | c ∷ cs ↦ elim val [
      | pos (suc n) ↦
          let r' = set_number (suc n % 2 ^ 32) r in
          if (r'.state == 4) && oversized r'.format
          then (if (c == b'#') || isspace c then overflow else badformat)
          else behind_token r' c cs
      | other ↦ badformat
    ]
  ]
]
