-- ===== src/CharCount.antt =====
-- lab2/zad2/main.c: how often a character stands in a file, and on how many lines. A byte is a number
-- below 256; a string argument ends where its list ends.
pub mod Char
pub mod Count
mod Tests
use sys_opy.Common.{
  ℕ, zero, suc, ◌+◌, ◌-◌, ◌*◌, ◌%◌, ◌^◌, Bool, true, false, ◌&&◌, ◌||◌, if◌then◌else◌, ltb, leb,
  ◌==◌, Option, none, some, List, [], ◌∷◌,
}
use sys_opy.Common.Int.{ℤ, pos, negsuc, int32}

-- A `char` as the signed number that the compiler makes of it, on the platforms the Makefile serves.
pub signed_char : ℕ → ℤ
signed_char c = if ltb c 128 then pos c else negsuc (255 - c)

-- `RETC(c)` at the character behind the one that is read: -1 unless the string ends there.
pub ret_char : List ℕ → ℤ → ℤ
ret_char [] v = v
ret_char (c ∷ cs) v = negsuc 0

-- The loop over at most three octal digits, `val` so far and the rounds left. `none` is the early
-- return; `uint8_t` keeps eight bits.
pub octal : ℕ → ℕ → List ℕ → Option (ℕ × List ℕ)
octal zero val str = some (val, str)
octal (suc n) val [] = some (val, [])
octal (suc n) val (c ∷ cs) =
    let rest = octal n ((val * 8 + (c - b'0')) % 256) cs in
    if ltb c b'0' || ltb b'7' c then none else rest

-- The letters that stand for a control character after a backslash.
pub escape_letter : ℕ → Option ℕ
escape_letter c =
    if c == b'r'
    then some 13
    else if c == b'n'
    then some 10
    else if c == b't'
    then some 9
    else if c == b'b'
    then some 8
    else if c == b'v'
    then some 11
    else if c == b'a'
    then some 7
    else if c == b'f'
    then some 12
    else if c == b'\\'
    then some b'\\'
    else none

-- The digits of an octal escape, of which there are at least two.
pub interpret_octal : List ℕ → ℤ
unfolding ret_char octal
interpret_octal str = elim (octal 3 0 str) [
  | none ↦ negsuc 0
  | some (val, rest) ↦ ret_char rest (pos val)
]

-- The inner `switch`, at the character behind the backslash. Before any digit of an octal escape a
-- string that ends behind this character gives 0.
pub interpret_escape : List ℕ → ℤ
unfolding interpret_octal escape_letter ret_char
interpret_escape [] = negsuc 0
interpret_escape (c ∷ []) =
    if leb b'0' c && leb c b'3'
    then pos 0
    else elim (escape_letter c) [ none ↦ negsuc 0 | some v ↦ pos v ]
interpret_escape (c ∷ (d ∷ ds)) =
    if leb b'0' c && leb c b'3'
    then interpret_octal (c ∷ (d ∷ ds))
    else elim (escape_letter c) [ none ↦ negsuc 0 | some v ↦ ret_char (d ∷ ds) (pos v) ]

pub interpret_char : List ℕ → ℤ
unfolding signed_char interpret_escape
interpret_char [] = negsuc 0
interpret_char (c ∷ cs) = if c == b'\\' then interpret_escape cs else ret_char cs (signed_char c)

-- What `main` makes of its first argument: the usage message, a failed assertion, or a byte to look
-- for.
pub data Argument : Type 0 where
  usage : Argument
  aborts : Argument
  byte : ℕ → Argument

pub argument : List ℕ → Argument
unfolding interpret_char
argument str = elim (interpret_char str) [
  | pos v ↦ if ltb v 256 then byte v else aborts
  | negsuc n ↦ if n == 0 then usage else aborts
]

-- The counters of `main`, which are `unsigned`.
pub record Counters : Type 0 where
  pub matchlines : ℕ
  pub matchbytes : ℕ
  pub freshline : Bool

abbrev pub u32 : ℕ → ℕ
u32 n = n % 2 ^ 32

-- The body of the loop over the buffer.
pub scan_byte : ℕ → ℕ → Counters → Counters
scan_byte chr b s =
    let s' =
      if b == chr
      then record {
        matchlines = if s.freshline then u32 (s.matchlines + 1) else s.matchlines;
        matchbytes = u32 (s.matchbytes + 1);
        freshline = false;
      }
      else s in
    if b == b'\n' then record s' { freshline = true } else s'

pub scan : ℕ → List ℕ → Counters → Counters
unfolding scan_byte
scan chr [] s = s
scan chr (b ∷ bs) s = scan chr bs (scan_byte chr b s)

-- The `do` loop: one buffer for each read, to the first read of nothing.
pub count_file : ℕ → List (List ℕ) → Counters → Counters
unfolding scan
count_file chr [] s = s
count_file chr ([] ∷ chunks) s = s
count_file chr ((b ∷ bs) ∷ chunks) s = count_file chr chunks (scan chr (b ∷ bs) s)

-- The two numbers printed at the end: `%d` reads an `unsigned` as an `int`.
unfoldable pub printed : Counters → ℤ × ℤ
printed s = (int32 s.matchlines, int32 s.matchbytes)

abbrev pub fresh : Counters
fresh = record { matchlines = 0; matchbytes = 0; freshline = true }
