-- ===== src/BlankLines/OnePass.antt =====
-- One pass over a file that copies what lab2/zad1/main.c copies.
use sys_opy.Common.{
  ℕ, ◌≡◌, refl, sym, ap, ◌∙◌, Bool, true, false, ◌||◌, not, if◌then◌else◌, ◌==◌, List, [], ◌∷◌,
  ◌++◌, arith, inl, inr, append_assoc, append-nil, Bool-cases,
}
use sys_opy.BlankLines.{isspace}
use sys_opy.BlankLines.Lines.{
  lines_of, has_text, text_lines, no_newline, no_newline-append, lines_of_line, has_text-append,
  text_lines_cons, text_lines_last,
}

mutual
  -- What is copied of a file when a line began with `blanks` and goes on.
  pub scan_on : List ℕ → List ℕ → List ℕ
  scan_on blanks [] = []
  scan_on blanks (c ∷ cs) =
      if c == 10
      then scan_on [] cs
      else if isspace c
      then scan_on (blanks ++ c ∷ []) cs
      else blanks ++ c ∷ write_on cs

  -- What is copied when the line has text.
  pub write_on : List ℕ → List ℕ
  write_on [] = []
  write_on (c ∷ cs) = if c == 10 then c ∷ scan_on [] cs else c ∷ write_on cs

pub scan_on_space :
    (acc cs : List ℕ) (c : ℕ)
    → (c == 10) ≡ false
    → isspace c ≡ true
    → scan_on acc (c ∷ cs) ≡ scan_on (acc ++ c ∷ []) cs
unfolding scan_on
scan_on_space acc cs c e s = rw (e, s) refl

pub scan_on_text :
    (acc cs : List ℕ) (c : ℕ)
    → (c == 10) ≡ false
    → isspace c ≡ false
    → scan_on acc (c ∷ cs) ≡ acc ++ c ∷ write_on cs
unfolding scan_on
scan_on_text acc cs c e s = rw (e, s) refl

pub scan_on_newline : (acc cs : List ℕ) → scan_on acc (10 ∷ cs) ≡ scan_on [] cs
unfolding scan_on
scan_on_newline acc cs = refl

pub write_on_newline : (cs : List ℕ) → write_on (10 ∷ cs) ≡ 10 ∷ scan_on [] cs
unfolding write_on
write_on_newline cs = refl

pub write_on_other : (cs : List ℕ) (c : ℕ) → (c == 10) ≡ false → write_on (c ∷ cs) ≡ c ∷ write_on cs
unfolding write_on
write_on_other cs c e = rw e refl

pub nothing_on : (acc : List ℕ) → (write_on [] ≡ []) × (scan_on acc [] ≡ [])
unfolding write_on scan_on
nothing_on acc = (refl, refl)

blank_last : (t : Bool) → (t || not (isspace 10)) ≡ t
unfolding isspace
blank_last true = refl
blank_last false = refl

pub empty_line : no_newline [] ≡ true
unfolding no_newline
empty_line = refl

no_text_yet : (xs : List ℕ) → (if has_text [] then write_on xs else scan_on [] xs) ≡ scan_on [] xs
unfolding has_text
no_text_yet xs = refl

module _ (acc cs : List ℕ) where
  newline_case :
      no_newline acc ≡ true
      → text_lines (lines_of cs) ≡ scan_on [] cs
      → text_lines (lines_of (acc ++ 10 ∷ cs))
        ≡ (if has_text acc then acc ++ write_on (10 ∷ cs) else scan_on acc (10 ∷ cs))
  newline_case h ih =
      let line = acc ++ 10 ∷ [] in
      let same : has_text line ≡ has_text acc =
        has_text-append acc 10 ∙ blank_last (has_text acc) in
      ap text_lines (lines_of_line acc cs h)
      ∙ text_lines_cons line (lines_of cs)
      ∙ elim (Bool-cases (has_text acc)) [
        | inl t ↦
            rw (same, t)
              (append_assoc acc (10 ∷ []) (text_lines (lines_of cs))
                ∙ ap (λ l. acc ++ l) (ap (λ l. 10 ∷ l) ih ∙ sym (write_on_newline cs)))
        | inr t ↦ rw (same, t) (ih ∙ sym (scan_on_newline acc cs))
      ]

  other_case :
      (c : ℕ)
      → (c == 10) ≡ false
      → (if has_text (acc ++ c ∷ [])
          then (acc ++ c ∷ []) ++ write_on cs
          else scan_on (acc ++ c ∷ []) cs)
        ≡ (if has_text acc then acc ++ write_on (c ∷ cs) else scan_on acc (c ∷ cs))
  other_case c e =
      let joined = append_assoc acc (c ∷ []) (write_on cs) in
      elim (Bool-cases (has_text acc)) [
        | inl t ↦
            let text : has_text (acc ++ c ∷ []) ≡ true = ground (arith, has_text-append acc c, t) in
            rw (text, t) (joined ∙ ap (λ l. acc ++ l) (sym (write_on_other cs c e)))
        | inr t ↦ elim (Bool-cases (isspace c)) [
          | inl s ↦
              let text : has_text (acc ++ c ∷ []) ≡ false =
                ground (arith, has_text-append acc c, t, s) in
              rw (text, t) (sym (scan_on_space acc cs c e s))
          | inr s ↦
              let text : has_text (acc ++ c ∷ []) ≡ true =
                ground (arith, has_text-append acc c, t, s) in
              rw (text, t) (joined ∙ sym (scan_on_text acc cs c e s))
        ]
      ]

-- The lines are what one pass copies.
pub text_lines_of :
    (acc xs : List ℕ)
    → no_newline acc ≡ true
    → text_lines (lines_of (acc ++ xs))
      ≡ (if has_text acc then acc ++ write_on xs else scan_on acc xs)
text_lines_of acc [] h =
    ap (λ l. text_lines (lines_of l)) (append-nil acc)
    ∙ text_lines_last acc h
    ∙ elim (Bool-cases (has_text acc)) [
      | inl t ↦ rw t (sym (ap (λ l. acc ++ l) (nothing_on acc).0 ∙ append-nil acc))
      | inr t ↦ rw t (sym (nothing_on acc).1)
    ]
text_lines_of acc (c ∷ cs) h = elim (Bool-cases (c == 10)) [
  | inl e ↦
      let newline : c ≡ 10 = ground (arith, e) in
      rw newline (newline_case acc cs h (text_lines_of [] cs empty_line ∙ no_text_yet cs))
  | inr e ↦
      ap (λ l. text_lines (lines_of l)) (sym (append_assoc acc (c ∷ []) cs))
      ∙ text_lines_of (acc ++ c ∷ []) cs (no_newline-append acc c h e)
      ∙ other_case acc cs c e
]

-- The whole file.
pub scan_on-lines : (xs : List ℕ) → scan_on [] xs ≡ text_lines (lines_of xs)
scan_on-lines xs = sym (text_lines_of [] xs empty_line ∙ no_text_yet xs)

pub write_on_line :
    (acc cs : List ℕ) → no_newline acc ≡ true → write_on (acc ++ cs) ≡ acc ++ write_on cs
unfolding no_newline
write_on_line [] cs h = refl
write_on_line (a ∷ acc) cs h =
    write_on_other (acc ++ cs) a (ground (arith, h))
    ∙ ap (λ l. a ∷ l) (write_on_line acc cs (ground (arith, h)))
