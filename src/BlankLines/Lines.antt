-- ===== src/BlankLines/Lines.antt =====
-- The lines of a file, each with its newline, and those that lab2/zad1/main.c copies.
use sys_opy.Common.{
  ℕ, ◌≡◌, refl, ap, ◌∙◌, Bool, true, false, ◌&&◌, ◌||◌, not, if◌then◌else◌, ◌==◌, List, [], ◌∷◌,
  ◌++◌, arith, append-nil,
}
use sys_opy.BlankLines.{isspace}

-- The first line is continued.
abbrev continue_line : ℕ → List (List ℕ) → List (List ℕ)
continue_line c [] = (c ∷ []) ∷ []
continue_line c (line ∷ lines) = (c ∷ line) ∷ lines

-- Every line but the last ends with a newline.
pub lines_of : List ℕ → List (List ℕ)
lines_of [] = []
lines_of (c ∷ cs) =
    let rest = lines_of cs in if c == 10 then (c ∷ []) ∷ rest else continue_line c rest

unfoldable pub has_text : List ℕ → Bool
has_text [] = false
has_text (c ∷ cs) = not (isspace c) || has_text cs

-- The lines with text, one after the other.
pub text_lines : List (List ℕ) → List ℕ
unfolding has_text
text_lines [] = []
text_lines (line ∷ lines) =
    let rest = text_lines lines in if has_text line then line ++ rest else rest

unfoldable pub no_newline : List ℕ → Bool
no_newline [] = true
no_newline (c ∷ cs) = not (c == 10) && no_newline cs

pub lines_of_line :
    (acc : List ℕ) (cs : List ℕ)
    → no_newline acc ≡ true
    → lines_of (acc ++ 10 ∷ cs) ≡ (acc ++ 10 ∷ []) ∷ lines_of cs
unfolding lines_of no_newline
lines_of_line [] cs h = refl
lines_of_line (a ∷ acc) cs h =
    let later = lines_of_line acc cs (ground (arith, h)) in
    let other : (a == 10) ≡ false = ground (arith, h) in rw (other, later) refl

pub lines_of_last :
    (a : ℕ) (acc : List ℕ) → no_newline (a ∷ acc) ≡ true → lines_of (a ∷ acc) ≡ (a ∷ acc) ∷ []
unfolding lines_of no_newline
lines_of_last a [] h = let other : (a == 10) ≡ false = ground (arith, h) in rw other refl
lines_of_last a (b ∷ acc) h =
    let later = lines_of_last b acc (ground (arith, h)) in
    let other : (a == 10) ≡ false = ground (arith, h) in rw (other, later) refl

pub no_newline-append :
    (acc : List ℕ) (c : ℕ)
    → no_newline acc ≡ true
    → (c == 10) ≡ false
    → no_newline (acc ++ c ∷ []) ≡ true
unfolding no_newline
no_newline-append [] c h e = rw e refl
no_newline-append (a ∷ acc) c h e = ground (arith, h, no_newline-append acc c (ground (arith, h)) e)

pub has_text-append :
    (acc : List ℕ) (c : ℕ) → has_text (acc ++ c ∷ []) ≡ (has_text acc || not (isspace c))
unfolding has_text
has_text-append [] c = ground arith
has_text-append (a ∷ acc) c = ground (arith, has_text-append acc c)

pub text_lines_cons :
    (line : List ℕ) (lines : List (List ℕ))
    → text_lines (line ∷ lines)
      ≡ (if has_text line then line ++ text_lines lines else text_lines lines)
unfolding text_lines
text_lines_cons line lines = refl

pub text_lines_last :
    (acc : List ℕ)
    → no_newline acc ≡ true
    → text_lines (lines_of acc) ≡ (if has_text acc then acc else [])
unfolding text_lines lines_of has_text
text_lines_last [] h = refl
text_lines_last (a ∷ acc) h =
    ap text_lines (lines_of_last a acc h)
    ∙ (text_lines_cons (a ∷ acc) []
        ∙ ap (λ l. if has_text (a ∷ acc) then l else []) (append-nil (a ∷ acc)))
