-- ===== src/Negative/Reader.antt =====
-- The reader of images of lab8/main.c: the values of the image, and the loop that reads the file.
pub mod Image
pub mod Headers
pub mod RoundTrip
pub mod Ahead
pub mod Total
use sys_opy.Common.{
  ℕ, zero, suc, ◌+◌, ◌-◌, ◌*◌, ◌/◌, ◌%◌, ◌^◌, Bool, true, false, ◌&&◌, ◌||◌, not, if◌then◌else◌,
  ltb, leb, ◌==◌, Option, none, some, List, [], ◌∷◌, ◌++◌, length, take, drop,
}
use sys_opy.Common.Int.{ℤ, pos, negsuc}
use sys_opy.BlankLines.{isspace}
use sys_opy.Strtol.{strtol}
use sys_opy.Negative.Output.{Format}
use sys_opy.Negative.Tokens.{
  then_turn, skip_spaces, blanks, past_newline, comment, kind, behind_token, magic, limit, is_wide,
  is_above, set_number, number, Reader, Turn, more, again, badformat, overflow, readfinish,
}

-- The next value of the image.
pub data Value : Type 0 where
  wanted : List ℕ → Value
  wrong : Value
  got : ℕ → List ℕ → Value

-- The spaces before a value in the plain format; `none` where the buffer ends.
pub plain_spaces : List ℕ → List ℕ × Bool
plain_spaces [] = ([], true)
plain_spaces (c ∷ cs) =
    let rest = plain_spaces cs in
    if not (isspace c) then (c ∷ cs, true) else if ltb (length cs) 2 then (cs, false) else rest

pub plain_value : List ℕ → Value
plain_value p = elim (strtol p) [
  | none ↦ wrong
  | some (val, fits, rest) ↦ if not fits then wrong else elim rest [
    | [] ↦ wanted p
    | c ∷ cs ↦ elim val [ pos n ↦ got n (c ∷ cs) | other ↦ wrong ]
  ]
]

pub next_value : Format → ℕ → List ℕ → Value
unfolding plain_spaces plain_value
next_value f written p =
    if f.bit
    then elim p [
      | [] ↦ wanted []
      | c ∷ cs ↦ got (c % 2) (if written % 8 == 7 then cs else c / 2 ∷ cs)
    ]
    else if f.binary
    then if is_wide f.maxval
      then elim p [ a ∷ (b ∷ cs) ↦ got (a * 256 + b) cs | short ↦ wanted short ]
      else elim p [ [] ↦ wanted [] | c ∷ cs ↦ got c cs ]
    else let (rest, enough) = plain_spaces p in if enough then plain_value rest else wanted rest

abbrev pub stored : Format → ℕ → List ℕ
stored f val = if is_wide f.maxval then val / 256 % 256 ∷ (val % 256 ∷ []) else val % 256 ∷ []

-- The loop over the values; each round but the last stores a byte.
pub values : ℕ → Reader → List ℕ → Turn
unfolding next_value limit
values zero r p = readfinish r
values (suc n) r p =
    if not (ltb (length r.image) (limit r.format))
    then readfinish r
    else elim (next_value r.format (length r.image) p) [
      | wanted p' ↦ more r p'
      | wrong ↦ badformat
      | got val p' ↦
          if is_above r.format.maxval val
          then badformat
          else values n (record r { image = r.image ++ stored r.format val }) p'
    ]

pub switch : Reader → List ℕ → Turn
unfolding magic number values
switch r p =
    if r.state == 0
    then magic r p
    else if ltb r.state 4
    then number r p
    else values (limit r.format - length r.image) r p

pub turn : Reader → List ℕ → Turn
unfolding then_turn blanks comment switch
turn r p = then_turn (then_turn (blanks r p) comment) switch

-- The loop over the turns; each of them leads to a later state.
pub turns : ℕ → Reader → List ℕ → Turn
unfolding turn then_turn
turns zero r p = again r p
turns (suc n) r p = then_turn (turn r p) (turns n)

-- The end of the reader.
pub data Reading : Type 0 where
  completed : Reader → Reading
  refused : Reading
  premature : Reading
  too_large : Reading

-- The loop over the reads, with the bytes that the buffer keeps and the rest of the file.
pub read_loop : ℕ → Reader → List ℕ → List ℕ → Option Reading
unfolding turns
read_loop zero r buf rest = none
read_loop (suc fuel) r buf rest =
    let chunk = take (4096 - length buf) rest in
    if length chunk == 0 then some premature else elim (turns 5 r (buf ++ chunk)) [
      | more r' p ↦ read_loop fuel r' p (drop (length chunk) rest)
      | again r' p ↦ none
      | badformat ↦ some refused
      | overflow ↦ some too_large
      | readfinish r' ↦ some (completed r')
    ]

abbrev pub new_reader : Reader
new_reader = record {
  state = 0;
  format = record {
    binary = true;
    bit = false;
    hasmaxval = true;
    channels = 1;
    width = 1;
    height = 1;
    maxval = 1;
  };
  image = [];
  incomment = false;
}

unfoldable pub read_image : List ℕ → Option Reading
unfolding read_loop
read_image file = read_loop (length file + 1) new_reader [] file
