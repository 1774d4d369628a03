-- ===== src/BlankLines/Content.antt =====
-- What lab2/zad1/main.c has written and has still to write, in the middle of a file.
use sys_opy.Common.{
  ℕ, suc, ◌+◌, ◌<◌, ◌≡◌, refl, sym, ap, ◌∙◌, Bool, true, false, ◌==◌, Option, none, some, List, [],
  ◌∷◌, ◌++◌, length, take, drop, arith, inl, inr, ◌⊎◌, append_assoc, Bool-cases, Option-cases,
  drop-drop,
}
use mathlib.Core.Option.{some-injective}
use sys_opy.BlankLines.{isspace, find_eol}
use sys_opy.BlankLines.Lines.{no_newline, no_newline-append}
use sys_opy.BlankLines.OnePass.{
  scan_on, write_on, scan_on_space, scan_on_text, scan_on_newline, write_on_newline, write_on_other,
  empty_line, write_on_line,
}

find_eol_cases :
    (x : ℕ) (xs : List ℕ) (o : Option ℕ)
    → find_eol (x ∷ xs) ≡ o
    → ((x ≡ 10) × (o ≡ some 0))
      ⊎ (((x == 10) ≡ false)
          × (((find_eol xs ≡ none) × (o ≡ none))
              ⊎ ((i : ℕ) × (find_eol xs ≡ some i) × (o ≡ some (suc i)))))
unfolding find_eol
find_eol_cases x xs o e = elim (Bool-cases (x == 10)) [
  | inl t ↦ inl (ground (arith, t), ground (arith, e, t))
  | inr t ↦ elim (Option-cases (find_eol xs)) [
    | inl f ↦ inr (t, inl (f, sym e ∙ rw (t, f) refl))
    | inr (i, f) ↦ inr (t, inr (i, f, sym e ∙ rw (t, f) refl))
  ]
]

pub find_eol-none : (xs ys : List ℕ) → find_eol xs ≡ none → write_on (xs ++ ys) ≡ xs ++ write_on ys
find_eol-none [] ys e = refl
find_eol-none (x ∷ xs) ys e = elim (find_eol_cases x xs none e) [
  | inl (_, n) ↦ cc n
  | inr (t, inl (f, _)) ↦ write_on_other (xs ++ ys) x t ∙ ap (λ l. x ∷ l) (find_eol-none xs ys f)
  | inr (t, inr (i, f, n)) ↦ cc n
]

pub find_eol-some :
    (xs ys : List ℕ) (i : ℕ)
    → find_eol xs ≡ some i
    → (i < length xs)
      × (write_on (xs ++ ys) ≡ take (suc i) xs ++ scan_on [] (drop (suc i) (xs ++ ys)))
unfolding find_eol
find_eol-some [] ys i e = cc e
find_eol-some (x ∷ xs) ys i e = elim (find_eol_cases x xs (some i) e) [
  | inl (ten, s) ↦
      let zero_place : i ≡ 0 = some-injective i 0 s in
      rw (zero_place, ten) (omega arith, write_on_newline (xs ++ ys))
  | inr (t, inl (f, n)) ↦ cc n
  | inr (t, inr (j, f, s)) ↦
      let place : i ≡ suc j = some-injective i (suc j) s in
      let (lt, later) = find_eol-some xs ys j f in
      rw place (omega arith, write_on_other (xs ++ ys) x t ∙ ap (λ l. x ∷ l) later)
]

pub find_eol_bound : (xs : List ℕ) (i : ℕ) → find_eol xs ≡ some i → i < length xs
find_eol_bound xs i e = (find_eol-some xs [] i e).0

-- What the output and the rest of the file, from the line start `l` and the place `p`, are to
-- give, when the file has been read to `p`.
abbrev pub Content : List ℕ → Bool → List ℕ → ℕ → ℕ → Type 0
Content file writing out l p =
    ((writing ≡ true) × (out ++ write_on (drop p file) ≡ scan_on [] file))
    ⊎ ((writing ≡ false)
        × ((acc : List ℕ) × (no_newline acc ≡ true)
            × (drop l file ≡ acc ++ drop p file)
            × (out ++ scan_on acc (drop p file) ≡ scan_on [] file)))

module _ (file out : List ℕ) (l p : ℕ) where
  -- The rest of the buffer is written, and the line goes on.
  pub Content-rest :
      (rest : List ℕ) (p' : ℕ)
      → Content file true out l p
      → drop p file ≡ rest ++ drop p' file
      → find_eol rest ≡ none
      → Content file true (out ++ rest) l p'
  Content-rest rest p' (inr (f, _)) split e = cc f
  Content-rest rest p' (inl (_, c)) split e =
      let step = ap write_on split ∙ find_eol-none rest (drop p' file) e in
      inl
        (refl, append_assoc out rest (write_on (drop p' file)) ∙ ap (λ x. out ++ x) (sym step) ∙ c)

  -- The line is written to its end.
  pub Content-line :
      (rest later : List ℕ) (i p' : ℕ)
      → Content file true out l p
      → drop p file ≡ rest ++ later
      → find_eol rest ≡ some i
      → p' ≡ p + suc i
      → Content file false (out ++ take (suc i) rest) p' p'
  Content-line rest later i p' (inr (f, _)) split e at = cc f
  Content-line rest later i p' (inl (_, c)) split e at =
      let (lt, step) = find_eol-some rest later i e in
      let next : drop (suc i) (rest ++ later) ≡ drop p' file =
        ap (drop (suc i)) (sym split)
        ∙ sym (drop-drop p (suc i) file)
        ∙ ap (λ t. drop t file) (sym at) in
      let line = take (suc i) rest in
      inr (
        refl,
        (
          [],
          empty_line,
          refl,
          append_assoc out line (scan_on [] (drop p' file))
              ∙ ap (λ x. out ++ x)
                  (ap (λ x. line ++ scan_on [] x) (sym next) ∙ sym step ∙ ap write_on (sym split))
              ∙ c,
        ),
      )

  module _ (c : ℕ) (at : drop p file ≡ c ∷ drop (suc p) file) where
    -- A line without text is passed over.
    pub Content-blank : Content file false out l p → c ≡ 10 → Content file false out (suc p) (suc p)
    Content-blank (inl (t, _)) ten = cc t
    Content-blank (inr (_, (acc, _, _, h))) ten =
        let step =
          ap (scan_on acc) (at ∙ ap (λ x. x ∷ drop (suc p) file) ten)
          ∙ scan_on_newline acc (drop (suc p) file) in
        inr (refl, ([], empty_line, refl, ap (λ x. out ++ x) (sym step) ∙ h))

    pub Content-space :
        Content file false out l p
        → (c == 10) ≡ false
        → isspace c ≡ true
        → Content file false out l (suc p)
    Content-space (inl (t, _)) ne s = cc t
    Content-space (inr (_, (acc, n, line, h))) ne s =
        let step = ap (scan_on acc) at ∙ scan_on_space acc (drop (suc p) file) c ne s in
        inr (
          refl,
          (
            acc ++ c ∷ [],
            no_newline-append acc c n ne,
            line ∙ ap (λ x. acc ++ x) at ∙ sym (append_assoc acc (c ∷ []) (drop (suc p) file)),
            ap (λ x. out ++ x) (sym step) ∙ h,
          ),
        )

    -- A line with text is written from its start.
    pub Content-text :
        Content file false out l p
        → (c == 10) ≡ false
        → isspace c ≡ false
        → Content file true out l l
    Content-text (inl (t, _)) ne s = cc t
    Content-text (inr (_, (acc, n, line, h))) ne s =
        let rest = drop (suc p) file in
        let back = ap write_on (line ∙ ap (λ x. acc ++ x) at) ∙ write_on_line acc (c ∷ rest) n in
        let step = ap (scan_on acc) at ∙ scan_on_text acc rest c ne s in
        inl (
          refl,
          ap (λ x. out ++ x) (back ∙ ap (λ x. acc ++ x) (write_on_other rest c ne) ∙ sym step) ∙ h,
        )
