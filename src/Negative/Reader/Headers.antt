-- ===== src/Negative/Reader/Headers.antt =====
-- The turns of the reader of lab8/main.c at the numbers of a header.
use sys_opy.Common.{
  ℕ, zero, suc, ◌-◌, ◌%◌, ◌^◌, ◌<◌, ◌≤◌, ◌≡◌, refl, sym, ap, ◌∙◌, true, false, ◌&&◌, ◌||◌, ltb, leb,
  ◌==◌, some, List, [], ◌∷◌, ◌++◌, length, take, drop, arith,
}
use sys_opy.Common.Int.{pos}
use sys_opy.BlankLines.{isspace}
use sys_opy.Strtol.{strtol, is_digit, decimal, decimal-Headed, strtol-decimal}
use sys_opy.Negative.Tokens.{
  Reader, again, then_turn, skip_spaces, blanks, comment, behind_token, oversized, set_number,
  number,
}
use sys_opy.Negative.Reader.{switch, turn, turns}

pub take-append :
    (n : ℕ) (a b : List ℕ) → length a ≤ n → take n (a ++ b) ≡ a ++ take (n - length a) b
take-append n [] b le = let same : n ≡ n - 0 = omega arith in ap (λ k. take k b) same
take-append zero (c ∷ cs) b le = absurd (omega (arith, le))
take-append (suc n) (c ∷ cs) b le =
    let same : n - length cs ≡ suc n - suc (length cs) = omega arith in
    ap (◌∷◌ c) (take-append n cs b (omega (arith, le)) ∙ ap (λ k. cs ++ take k b) same)

pub drop-append : (n : ℕ) (a b : List ℕ) → length a ≤ n → drop n (a ++ b) ≡ drop (n - length a) b
drop-append n [] b le = let same : n ≡ n - 0 = omega arith in ap (λ k. drop k b) same
drop-append zero (c ∷ cs) b le = absurd (omega (arith, le))
drop-append (suc n) (c ∷ cs) b le =
    let same : n - length cs ≡ suc n - suc (length cs) = omega arith in
    drop-append n cs b (omega (arith, le)) ∙ ap (λ k. drop k b) same

pub turns_again :
    (n : ℕ) (r r' : Reader) (p p' : List ℕ)
    → turn r p ≡ again r' p'
    → turns (suc n) r p ≡ turns n r' p'
unfolding turns then_turn
turns_again n r r' p p' e = ap (λ t. then_turn t (turns n)) e

digit_blanks :
    (r : Reader) (d : ℕ) (ds : List ℕ)
    → (ltb 0 r.state && ltb r.state 4) ≡ true
    → is_digit d ≡ true
    → blanks r (d ∷ ds) ≡ again r (d ∷ ds)
unfolding blanks skip_spaces isspace is_digit
digit_blanks r d ds e h =
    let no_space : ((leb 9 d && leb d 13) || (d == 32)) ≡ false = ground (arith, h) in
    let no_comment : (d == b'#') ≡ false = ground (arith, h) in rw (e, no_space, no_comment) refl

-- A turn at a number of the header.
switch_number :
    (r : Reader) (p : List ℕ)
    → (ltb 0 r.state && ltb r.state 4) ≡ true
    → blanks r p ≡ again r p
    → r.incomment ≡ false
    → turn r p ≡ number r p
unfolding turn then_turn comment switch
switch_number r p e b c =
    let later : (r.state == 0) ≡ false = ground (arith, e) in
    let early : ltb r.state 4 ≡ true = ground (arith, e) in rw (b, c, later, early) refl

-- The size fits into an `int`, if the image follows.
abbrev pub Fits : Reader → ℕ → Type 0
Fits r val = (((set_number val r).state == 4) && oversized (set_number val r).format) ≡ false

number_read :
    (r : Reader) (p : List ℕ) (n c : ℕ) (rest : List ℕ)
    → strtol p ≡ some (pos (suc n), true, c ∷ rest)
    → suc n < 2 ^ 31
    → Fits r (suc n)
    → number r p ≡ behind_token (set_number (suc n) r) c rest
unfolding number
number_read r p n c rest e small fits =
    let whole : suc n % 2 ^ 32 ≡ suc n = omega (arith, small) in rw (e, whole, fits, number) refl

pub number_turn :
    (r : Reader) (val c : ℕ) (rest : List ℕ)
    → (ltb 0 r.state && ltb r.state 4) ≡ true
    → r.incomment ≡ false
    → 0 < val
    → val < 2 ^ 31
    → is_digit c ≡ false
    → Fits r val
    → turn r (decimal val ++ c ∷ rest) ≡ behind_token (set_number val r) c rest
number_turn r zero c rest e i some_val small no_digit fits = absurd (omega (arith, some_val))
number_turn r (suc n) c rest e i some_val small no_digit fits =
    let p = decimal (suc n) ++ c ∷ rest in
    let (d, ds, at, h) = decimal-Headed (suc n) (c ∷ rest) in
    let b : blanks r p ≡ again r p =
      ap (blanks r) at ∙ (digit_blanks r d ds e h ∙ ap (again r) (sym at)) in
    switch_number r p e b i
    ∙ number_read r p n c rest (strtol-decimal (suc n) c rest (omega (arith, small)) no_digit) small
        fits
