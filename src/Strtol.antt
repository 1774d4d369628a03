-- ===== src/Strtol.antt =====
-- `strtol` of the C library with base 10, which lab3/zad3/main.c and lab8/main.c call, and the text
-- that `sprintf` makes of a number with `%d`.
use sys_opy.Common.{
  ℕ, zero, suc, ◌+◌, ◌-◌, ◌*◌, ◌/◌, ◌%◌, ◌^◌, ◌≤◌, ◌<◌, ◌≡◌, refl, sym, ap, ◌∙◌, Bool, true, false,
  ◌&&◌, not, if◌then◌else◌, ltb, lt→ltb, leb, ◌==◌, Option, none, some, List, [], ◌∷◌, ◌++◌, length,
  min, Bool-cases, inl, inr, arith,
}
use sys_opy.Common.Int.{ℤ, pos, negsuc}
use sys_opy.BlankLines.{isspace}

unfoldable pub is_digit : ℕ → Bool
is_digit c = leb b'0' c && leb c b'9'

-- The number that the digits in front make, behind `acc`, and what follows them.
unfoldable pub digits : ℕ → List ℕ → ℕ × List ℕ
unfolding is_digit
digits acc [] = (acc, [])
digits acc (c ∷ cs) =
    let later = digits (10 * acc + (c - b'0')) cs in if is_digit c then later else (acc, c ∷ cs)

-- A number that is kept between LONG_MIN and LONG_MAX, and whether it had to be.
unfoldable pub limited : Bool → ℕ → ℤ × Bool
limited minus n =
    if minus
    then (if n == 0 then pos 0 else negsuc (min n (2 ^ 63) - 1), leb n (2 ^ 63))
    else (pos (min n (2 ^ 63 - 1)), ltb n (2 ^ 63))

-- What follows the sign; `none` where no digit follows.
unfoldable pub signed : Bool → List ℕ → Option (ℤ × Bool × List ℕ)
unfolding digits is_digit limited
signed minus [] = none
signed minus (c ∷ cs) =
    if not (is_digit c)
    then none
    else let (n, rest) = digits 0 (c ∷ cs) in
      let (value, fits) = limited minus n in some (value, fits, rest)

-- The number, whether it fits, and what follows it; `none` where there is no number.
unfoldable pub strtol : List ℕ → Option (ℤ × Bool × List ℕ)
unfolding signed isspace
strtol [] = none
strtol (c ∷ cs) =
    let later = strtol cs in
    if isspace c
    then later
    else if c == b'-'
    then signed true cs
    else if c == b'+'
    then signed false cs
    else signed false (c ∷ cs)

-- The digits of a number in front of a text, with fuel for each digit.
unfoldable pub put_digits : ℕ → ℕ → List ℕ → List ℕ
put_digits zero n rest = rest
put_digits (suc fuel) n rest =
    let more = put_digits fuel (n / 10) ((b'0' + n % 10) ∷ rest) in
    if ltb n 10 then (b'0' + n) ∷ rest else more

unfoldable pub decimal : ℕ → List ℕ
unfolding put_digits
decimal n = put_digits (n + 1) n []

put_digits-append :
    (fuel n : ℕ) (a b : List ℕ) → put_digits fuel n a ++ b ≡ put_digits fuel n (a ++ b)
unfolding put_digits
put_digits-append zero n a b = refl
put_digits-append (suc fuel) n a b = elim (Bool-cases (ltb n 10)) [
  | inl t ↦ rw t refl
  | inr f ↦ rw f (put_digits-append fuel (n / 10) ((b'0' + n % 10) ∷ a) b)
]

digits-cons :
    (d acc : ℕ) (rest : List ℕ)
    → d < 10
    → digits acc ((b'0' + d) ∷ rest) ≡ digits (10 * acc + d) rest
unfolding digits is_digit
digits-cons d acc rest lt =
    let yes : (leb b'0' (b'0' + d) && leb (b'0' + d) b'9') ≡ true = ground (arith, lt) in
    let same : b'0' + d - b'0' ≡ d = omega arith in rw (yes, same) refl

-- The digits are read back.
digits-put_digits :
    (fuel n : ℕ) (rest : List ℕ) → n < fuel → digits 0 (put_digits fuel n rest) ≡ digits n rest
unfolding put_digits
digits-put_digits zero n rest lt = absurd (omega (arith, lt))
digits-put_digits (suc fuel) n rest lt = elim (Bool-cases (ltb n 10)) [
  | inl t ↦ rw t (digits-cons n 0 rest (ground (arith, t)) ∙ ap (λ m. digits m rest) (omega arith))
  | inr f ↦
      let big : 10 ≤ n = ground (arith, f) in
      let back : 10 * (n / 10) + n % 10 ≡ n = omega arith in
      rw f (
        digits-put_digits fuel (n / 10) ((b'0' + n % 10) ∷ rest) (omega (arith, big, lt))
        ∙ (digits-cons (n % 10) (n / 10) rest (omega arith) ∙ ap (λ m. digits m rest) back))
]

Headed : List ℕ → Type 0
Headed text = (d : ℕ) × (ds : List ℕ) × (text ≡ d ∷ ds) × (is_digit d ≡ true)

put_digits-Headed : (fuel n : ℕ) (rest : List ℕ) → n < fuel → Headed (put_digits fuel n rest)
unfolding put_digits Headed is_digit
put_digits-Headed zero n rest lt = absurd (omega (arith, lt))
put_digits-Headed (suc fuel) n rest lt = elim (Bool-cases (ltb n 10)) [
  | inl t ↦ (b'0' + n, rest, rw t refl, ground (arith, t))
  | inr f ↦
      let big : 10 ≤ n = ground (arith, f) in
      let (d, ds, e, h) =
        put_digits-Headed fuel (n / 10) ((b'0' + n % 10) ∷ rest) (omega (arith, big, lt)) in
      (d, ds, rw f e, h)
]

pub decimal-Headed :
    (n : ℕ) (rest : List ℕ)
    → (d : ℕ) × (ds : List ℕ) × (decimal n ++ rest ≡ d ∷ ds) × (is_digit d ≡ true)
unfolding decimal Headed
decimal-Headed n rest =
    let (d, ds, e, h) = put_digits-Headed (n + 1) n rest (omega arith) in
    (d, ds, put_digits-append (n + 1) n [] rest ∙ e, h)

digits_end : (n c : ℕ) (rest : List ℕ) → is_digit c ≡ false → digits n (c ∷ rest) ≡ (n, c ∷ rest)
unfolding digits
digits_end n c rest e = rw e refl

strtol-signed : (d : ℕ) (ds : List ℕ) → is_digit d ≡ true → strtol (d ∷ ds) ≡ signed false (d ∷ ds)
unfolding strtol isspace is_digit
strtol-signed d ds e = ground (arith, e)

digits_head :
    (d : ℕ) (ds : List ℕ) → is_digit d ≡ true → digits 0 (d ∷ ds) ≡ digits (10 * 0 + (d - b'0')) ds
unfolding digits
digits_head d ds e = rw e refl

signed-digits :
    (d n : ℕ) (ds rest : List ℕ)
    → is_digit d ≡ true
    → digits 0 (d ∷ ds) ≡ (n, rest)
    → n < 2 ^ 63
    → signed false (d ∷ ds) ≡ some (pos n, true, rest)
unfolding signed limited
signed-digits d n ds rest e h lt =
    let small : min n (2 ^ 63 - 1) ≡ n = omega (arith, lt) in
    let fits : ltb n (2 ^ 63) ≡ true = lt→ltb n (2 ^ 63) lt in
    let h' = sym (digits_head d ds e) ∙ h in rw (e, h', fits, ap pos small) refl

-- What `sprintf` has written is read back, up to a character that is no digit.
pub strtol-decimal :
    (n c : ℕ) (rest : List ℕ)
    → n < 2 ^ 63
    → is_digit c ≡ false
    → strtol (decimal n ++ c ∷ rest) ≡ some (pos n, true, c ∷ rest)
unfolding decimal
strtol-decimal n c rest lt e =
    let (d, ds, at, h) = decimal-Headed n (c ∷ rest) in
    let read : digits 0 (d ∷ ds) ≡ (n, c ∷ rest) =
      ap (digits 0) (sym at ∙ put_digits-append (n + 1) n [] (c ∷ rest))
      ∙ (digits-put_digits (n + 1) n (c ∷ rest) (omega arith) ∙ digits_end n c rest e) in
    ap strtol at ∙ (strtol-signed d ds h ∙ signed-digits d n ds (c ∷ rest) h read lt)

pub length-put_digits :
    (k fuel n : ℕ) (rest : List ℕ)
    → n < 10 ^ suc k
    → length (put_digits fuel n rest) ≤ suc k + length rest
unfolding put_digits
length-put_digits k zero n rest lt = omega arith
length-put_digits zero (suc fuel) n rest lt = elim (Bool-cases (ltb n 10)) [
  | inl t ↦ rw t (omega arith)
  | inr f ↦ absurd (let big : 10 ≤ n = ground (arith, f) in omega (arith, big, lt))
]
length-put_digits (suc k) (suc fuel) n rest lt = elim (Bool-cases (ltb n 10)) [
  | inl t ↦ rw t (omega arith)
  | inr f ↦
      let power : 10 ^ suc (suc k) ≡ 10 * 10 ^ suc k = omega arith in
      let later =
        length-put_digits k fuel (n / 10) ((b'0' + n % 10) ∷ rest) (omega (arith, lt, power)) in
      rw f (omega (arith, later))
]

-- An `int` has at most ten digits.
pub length-decimal : (n : ℕ) → n < 2 ^ 31 → length (decimal n) ≤ 10
unfolding decimal
length-decimal n lt =
    let below : n < 10 ^ suc 9 = omega (arith, lt) in
    omega (arith, length-put_digits 9 (n + 1) n [] below)
