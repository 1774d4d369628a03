-- ===== src/CharCount/Char.antt =====
-- lab2/zad2/main.c: what `interpret_char` and the checks of `main` make of the first argument.
use sys_opy.Common.{
  ℕ, zero, suc, ◌+◌, ◌-◌, ◌*◌, ◌/◌, ◌%◌, ◌≤◌, ◌<◌, ◌≡◌, ◌≢◌, ◌∙◌, sym, refl, false, ◌&&◌,
  if◌then◌else◌, ltb, leb, ◌==◌, Option, none, some, List, [], ◌∷◌, arith, Bool-cases, inl, inr,
}
use sys_opy.Common.Int.{ℤ, pos, negsuc}
use sys_opy.CharCount.{
  ret_char, octal, escape_letter, interpret_octal, interpret_escape, interpret_char, Argument,
  usage, aborts, byte, argument,
}

-- A backslash and the three octal digits of a number below 512.
pub octal_escape : ℕ → List ℕ
octal_escape v = b'\\' ∷ ((b'0' + v / 64) ∷ ((b'0' + v / 8 % 8) ∷ ((b'0' + v % 8) ∷ [])))

-- Every byte can be asked for by its octal escape.
pub argument-octal_escape : (v : ℕ) → v < 256 → argument (octal_escape v) ≡ byte v
unfolding argument interpret_char octal_escape
argument-octal_escape v h = ground arith

-- An octal escape of a single digit, from 0 to 3, is taken for the byte 0.
pub single_digit_zero : (d : ℕ) → d < 4 → argument (b'\\' ∷ ((b'0' + d) ∷ [])) ≡ byte 0
unfolding argument interpret_char
single_digit_zero d h = ground arith

octal_small :
    (n val : ℕ) (str : List ℕ) (v : ℕ) (rest : List ℕ)
    → val < 256
    → octal n val str ≡ some (v, rest)
    → v < 256
unfolding octal
octal_small zero val str v rest h e = ground arith
octal_small (suc n) val [] v rest h e = ground arith
octal_small (suc n) val (c ∷ cs) v rest h e =
    ground (arith, octal_small n ((val * 8 + (c - b'0')) % 256) cs v rest)

-- The results of the escapes: -1 or a byte.
abbrev IsByte : ℤ → Type 0
IsByte (pos v) = v < 256
IsByte (negsuc n) = n ≡ 0

escape_letter_small : (c v : ℕ) → escape_letter c ≡ some v → v < 256
unfolding escape_letter
escape_letter_small c v e = ground arith

ret_char-IsByte : (str : List ℕ) (v : ℕ) → v < 256 → IsByte (ret_char str (pos v))
unfolding ret_char
ret_char-IsByte [] v h = h
ret_char-IsByte (c ∷ cs) v h = refl

letter-IsByte :
    (c : ℕ) (cs : List ℕ)
    → IsByte (elim (escape_letter c) [ none ↦ negsuc 0 | some v ↦ ret_char cs (pos v) ])
letter-IsByte c cs = go (escape_letter c) refl
  where
    go :
        (o : Option ℕ)
        → escape_letter c ≡ o
        → IsByte (elim o [ none ↦ negsuc 0 | some v ↦ ret_char cs (pos v) ])
    go none e = refl
    go (some v) e = ret_char-IsByte cs v (escape_letter_small c v e)

interpret_octal-IsByte : (str : List ℕ) → IsByte (interpret_octal str)
unfolding interpret_octal
interpret_octal-IsByte str = go (octal 3 0 str) refl
  where
    go :
        (o : Option (ℕ × List ℕ))
        → octal 3 0 str ≡ o
        → IsByte (elim o [ none ↦ negsuc 0 | some (v, rest) ↦ ret_char rest (pos v) ])
    go none e = refl
    go (some (v, rest)) e = ret_char-IsByte rest v (octal_small 3 0 str v rest (omega arith) e)

interpret_escape-IsByte : (str : List ℕ) → IsByte (interpret_escape str)
unfolding interpret_escape
interpret_escape-IsByte [] = refl
interpret_escape-IsByte (c ∷ []) = elim (Bool-cases (leb b'0' c && leb c b'3')) [
  | inl digit ↦ rw digit (omega arith)
  | inr other ↦ rw other (letter-IsByte c [])
]
interpret_escape-IsByte (c ∷ (d ∷ ds)) = elim (Bool-cases (leb b'0' c && leb c b'3')) [
  | inl digit ↦ rw digit (interpret_octal-IsByte (c ∷ (d ∷ ds)))
  | inr other ↦ rw other (letter-IsByte c (d ∷ ds))
]

argument_of : ℤ → Argument
argument_of (pos v) = if ltb v 256 then byte v else aborts
argument_of (negsuc n) = if n == 0 then usage else aborts

IsByte-ne-aborts : (z : ℤ) → IsByte z → argument_of z ≢ aborts
unfolding argument_of
IsByte-ne-aborts (pos v) h e = ground arith
IsByte-ne-aborts (negsuc n) h e = ground arith

argument-eq : (str : List ℕ) → argument str ≡ argument_of (interpret_char str)
unfolding argument argument_of
argument-eq str = go (interpret_char str)
  where
    go :
        (z : ℤ)
        → (elim z [
          | pos v ↦ if ltb v 256 then byte v else aborts
          | negsuc n ↦ if n == 0 then usage else aborts
        ])
          ≡ argument_of z
    go (pos v) = refl
    go (negsuc n) = refl

plain_aborts :
    (c : ℕ) (cs : List ℕ)
    → (c == b'\\') ≡ false
    → argument (c ∷ cs) ≡ aborts
    → (d : ℕ) × ((c ∷ cs) ≡ d ∷ []) × (128 ≤ d)
unfolding argument interpret_char
plain_aborts c [] h e = (c, refl, ground arith)
plain_aborts c (d ∷ ds) h e = absurd (ground arith)

-- The assertion of `main` on the character fails only for an argument that is a single byte from
-- 128 on.
pub aborts_only : (str : List ℕ) → argument str ≡ aborts → (c : ℕ) × (str ≡ c ∷ []) × (128 ≤ c)
unfolding argument interpret_char
aborts_only [] e = cc
aborts_only (c ∷ cs) e = elim (Bool-cases (c == b'\\')) [
  | inl escape ↦ absurd (
      IsByte-ne-aborts (interpret_char (c ∷ cs)) (rw escape (interpret_escape-IsByte cs))
        (sym (argument-eq (c ∷ cs)) ∙ e))
  | inr plain ↦ plain_aborts c cs plain e
]

-- A single byte from 128 on is never looked for: the program stops at the assertion, or shows its
-- usage for 255.
pub high_byte_refused :
    (c : ℕ) → 128 ≤ c → c < 256 → argument (c ∷ []) ≡ (if c == 255 then usage else aborts)
unfolding argument interpret_char
high_byte_refused c lo hi = ground arith
