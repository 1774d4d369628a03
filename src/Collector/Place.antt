-- ===== src/Collector/Place.antt =====
-- The text that lab5/zad3/consumer.c puts into the file.
use sys_opy.Common.{
  ℕ, zero, suc, ◌+◌, ◌-◌, ◌≤◌, ◌≡◌, refl, ap, ap₂, ◌∙◌, sym, arith, true, false, if◌then◌else◌, ltb,
  ◌==◌, inl, inr, Bool-cases, List, [], ◌∷◌, ◌++◌, take, drop, length, replicate, append_assoc,
  append-nil, length-append, length-drop,
}
use sys_opy.Collector.{scan_lines, write_over, place_at, place_text}

-- The file with a text at the end of its `n + 1`-st line, which is begun if there is none; what
-- follows the line stays.
abbrev pub with_text : ℕ → List ℕ → List ℕ → List ℕ
with_text zero text [] = text ++ b'\n' ∷ []
with_text (suc n) text [] = b'\n' ∷ with_text n text []
with_text zero text (c ∷ cs) = if c == b'\n' then text ++ b'\n' ∷ cs else c ∷ with_text zero text cs
with_text (suc n) text (c ∷ cs) =
    if c == b'\n' then b'\n' ∷ with_text n text cs else c ∷ with_text (suc n) text cs

module _ {ℓ} {A : Type ℓ} where
  take-append_length : (xs ys : List A) → take (length xs) (xs ++ ys) ≡ xs
  take-append_length [] ys = refl
  take-append_length (x ∷ xs) ys = ap (λ t. x ∷ t) (take-append_length xs ys)

  drop-append_length : (xs ys : List A) → drop (length xs) (xs ++ ys) ≡ ys
  drop-append_length [] ys = refl
  drop-append_length (x ∷ xs) ys = drop-append_length xs ys

with_text-nil :
    (n : ℕ) (text : List ℕ) → with_text n text [] ≡ replicate n b'\n' ++ (text ++ b'\n' ∷ [])
with_text-nil zero text = refl
with_text-nil (suc n) text = ap (λ t. b'\n' ∷ t) (with_text-nil n text)

drop_all : (n : ℕ) (xs : List ℕ) → length xs ≤ n → drop n xs ≡ []
drop_all zero [] h = refl
drop_all zero (x ∷ xs) h = absurd (omega arith)
drop_all (suc n) [] h = refl
drop_all (suc n) (x ∷ xs) h = drop_all n xs (omega arith)

-- Two writes, one behind the other, the second of the old rest without its first byte.
two_writes :
    (front text cs : List ℕ) (c : ℕ)
    → 1 ≤ length text
    → write_over (write_over (front ++ c ∷ cs) (length front) text) (length front + length text) cs
      ≡ front ++ (text ++ cs)
two_writes front text cs c h =
    let file = front ++ c ∷ cs in
    let rest = drop (length front + length text) file in
    let joined : front ++ (text ++ rest) ≡ (front ++ text) ++ rest =
      sym (append_assoc front text rest) in
    let size : length front + length text ≡ length (front ++ text) =
      sym (length-append front text) in
    let over : drop (length front + length text + length cs) (front ++ (text ++ rest)) ≡ [] =
      drop_all (length front + length text + length cs) (front ++ (text ++ rest)) (
        omega (
          arith,
          length-append front (text ++ rest),
          length-append text rest,
          length-drop (length front + length text) file,
          length-append front (c ∷ cs),
        )) in
    let kept : take (length front + length text) (front ++ (text ++ rest)) ≡ front ++ text =
      ap₂ take size joined ∙ take-append_length (front ++ text) rest in
    rw (take-append_length front (c ∷ cs), over, kept, append-nil cs) (append_assoc front text cs)

-- Once the newline is found the text goes in front of it.
place_at-found :
    (front cs : List ℕ) (lineno : ℕ) (text : List ℕ)
    → place_at (front ++ b'\n' ∷ cs) lineno (text ++ b'\n' ∷ []) (lineno, length front + 1)
      ≡ front ++ (text ++ b'\n' ∷ cs)
unfolding place_at
place_at-found front cs lineno text =
    let same : (lineno == lineno) ≡ true = ground arith in
    let at : length front + 1 - 1 ≡ length front = omega arith in
    let back : length front + 1 ≡ length (front ++ b'\n' ∷ []) =
      sym (length-append front (b'\n' ∷ [])) in
    let tail : drop (length front + 1) (front ++ b'\n' ∷ cs) ≡ cs =
      ap₂ drop back (sym (append_assoc front (b'\n' ∷ []) cs))
      ∙ drop-append_length (front ++ b'\n' ∷ []) cs in
    rw (same, at, tail)
      (two_writes front (text ++ b'\n' ∷ []) cs b'\n'
          (omega (arith, length-append text (b'\n' ∷ [])))
        ∙ ap (λ t. front ++ t) (append_assoc text (b'\n' ∷ []) cs))

scan_lines_stop : (lineno i : ℕ) (cs : List ℕ) → scan_lines lineno lineno i cs ≡ (lineno, i)
unfolding scan_lines
scan_lines_stop lineno i [] = refl
scan_lines_stop lineno i (c ∷ cs) = let stop : ltb lineno lineno ≡ false = ground arith in rw stop

place_at-missing :
    (front file text : List ℕ) (n curline lineno i : ℕ)
    → file ≡ front ++ []
    → (curline == lineno) ≡ false
    → lineno - 1 - curline ≡ n
    → place_at file lineno (text ++ b'\n' ∷ []) (curline, i) ≡ front ++ with_text n text []
unfolding place_at
place_at-missing front file text n curline lineno i p before missing =
    rw (before, missing, p, append-nil front, with_text-nil n text)

with_text-other :
    (n c : ℕ) (text cs : List ℕ)
    → (c == b'\n') ≡ false
    → with_text n text (c ∷ cs) ≡ c ∷ with_text n text cs
with_text-other zero c text cs e = rw e
with_text-other (suc n) c text cs e = rw e

newline_step :
    (front cs file text : List ℕ) (n curline lineno i c : ℕ)
    → c ≡ b'\n'
    → file ≡ front ++ c ∷ cs
    → i ≡ length front
    → lineno ≡ curline + 1 + n
    → ((m : ℕ)
        → lineno ≡ curline + 1 + 1 + m
        → place_at file lineno (text ++ b'\n' ∷ []) (scan_lines lineno (curline + 1) (i + 1) cs)
          ≡ front ++ c ∷ with_text m text cs)
    → place_at file lineno (text ++ b'\n' ∷ []) (scan_lines lineno (curline + 1) (i + 1) cs)
      ≡ front ++ with_text n text (c ∷ cs)
newline_step front cs file text zero curline lineno i c e p q r onward =
    let r' : lineno ≡ curline + 1 = omega arith in
    rw (p, e, r', q, scan_lines_stop (curline + 1) (length front + 1) cs)
      (place_at-found front cs (curline + 1) text)
newline_step front cs file text (suc m) curline lineno i c e p q r onward =
    let same : (c == b'\n') ≡ true = ground arith in
    let kept : c ∷ with_text m text cs ≡ with_text (suc m) text (c ∷ cs) = rw (same, e) in
    onward m (omega arith) ∙ ap (λ t. front ++ t) kept

-- Behind `front`, `n + 1` newlines before the end of the line.
place_at-scan_lines :
    (front cs file text : List ℕ) (n curline lineno i : ℕ)
    → file ≡ front ++ cs
    → i ≡ length front
    → lineno ≡ curline + 1 + n
    → place_at file lineno (text ++ b'\n' ∷ []) (scan_lines lineno curline i cs)
      ≡ front ++ with_text n text cs
unfolding scan_lines
place_at-scan_lines front [] file text n curline lineno i p q r =
    let before : (curline == lineno) ≡ false = ground arith in
    let missing : lineno - 1 - curline ≡ n = omega arith in
    place_at-missing front file text n curline lineno i p before missing
place_at-scan_lines front (c ∷ cs) file text n curline lineno i p q r =
    let before : ltb curline lineno ≡ true = ground arith in
    let onward : (m l : ℕ)
        → lineno ≡ l + 1 + m
        → place_at file lineno (text ++ b'\n' ∷ []) (scan_lines lineno l (i + 1) cs)
          ≡ front ++ c ∷ with_text m text cs =
      λ m l e.
        place_at-scan_lines (front ++ c ∷ []) cs file text m l lineno (i + 1)
          (p ∙ sym (append_assoc front (c ∷ []) cs)) (omega (arith, length-append front (c ∷ []))) e
        ∙ append_assoc front (c ∷ []) (with_text m text cs) in
    elim (Bool-cases (c == b'\n')) [
      | inr e ↦ rw (before, e, with_text-other n c text cs e) (onward n curline r)
      | inl e ↦
          rw (before, e)
            (newline_step front cs file text n curline lineno i c (ground arith) p q r
              (λ m. onward m (curline + 1)))
    ]

-- A packet's text, with its newline, goes to the end of the line of its number, which is at least 1:
-- what the line holds stays in front of it, and all other lines stay. Missing lines are begun.
pub place_text-with_text :
    (file text : List ℕ) (n : ℕ)
    → place_text file (suc n) (text ++ b'\n' ∷ []) ≡ with_text n text file
unfolding place_text
place_text-with_text file text n =
    place_at-scan_lines [] file file text n 0 (suc n) 0 refl refl (omega arith)
