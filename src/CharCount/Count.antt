-- ===== src/CharCount/Count.antt =====
-- lab2/zad2/main.c: the counters against the file's bytes and lines.
use sys_opy.Common.{
  ℕ, ◌+◌, ◌^◌, ◌<◌, ◌≤◌, ◌≡◌, ◌≢◌, refl, sym, ap, ap₂, ◌∙◌, Bool, true, false, ◌||◌, ◌&&◌,
  if◌then◌else◌, ◌==◌, List, [], ◌∷◌, ◌++◌, arith, Bool-cases, inl, inr,
}
use mathlib.Core.Path.{subst}
use sys_opy.Common.Int.{pos, int32_small}
use sys_opy.CharCount.{Counters, scan_byte, scan, count_file, printed, fresh}

-- How often a byte stands in a text.
unfoldable pub occurrences : ℕ → List ℕ → ℕ
occurrences chr [] = 0
occurrences chr (b ∷ bs) = (if b == chr then 1 else 0) + occurrences chr bs

-- The lines of a text. What follows the last newline is a line too, be it empty.
pub lines : List ℕ → List (List ℕ)
lines [] = [] ∷ []
lines (b ∷ bs) = elim (lines bs) [
  | [] ↦ []
  | l ∷ ls ↦ if b == b'\n' then [] ∷ (l ∷ ls) else (b ∷ l) ∷ ls
]

pub contains : ℕ → List ℕ → Bool
contains chr [] = false
contains chr (b ∷ bs) = (b == chr) || contains chr bs

-- How many of some lines hold the byte.
pub matching : ℕ → List (List ℕ) → ℕ
unfolding contains
matching chr [] = 0
matching chr (l ∷ ls) = (if contains chr l then 1 else 0) + matching chr ls

-- The chunks that `main` reads, up to the first read of nothing.
unfoldable pub joined : List (List ℕ) → List ℕ
joined [] = []
joined ([] ∷ chunks) = []
joined ((b ∷ bs) ∷ chunks) = (b ∷ bs) ++ joined chunks

scan-append :
    (chr : ℕ) (xs ys : List ℕ) (s : Counters) → scan chr (xs ++ ys) s ≡ scan chr ys (scan chr xs s)
unfolding scan
scan-append chr [] ys s = refl
scan-append chr (x ∷ xs) ys s = scan-append chr xs ys (scan_byte chr x s)

-- The counters after the reads of a file are those of one scan over its bytes, wherever the buffers
-- of the reads end.
pub count_file-scan :
    (chr : ℕ) (chunks : List (List ℕ)) (s : Counters)
    → count_file chr chunks s ≡ scan chr (joined chunks) s
unfolding count_file joined
count_file-scan chr [] s = refl
count_file-scan chr ([] ∷ chunks) s = refl
count_file-scan chr ((b ∷ bs) ∷ chunks) s =
    count_file-scan chr chunks (scan chr (b ∷ bs) s)
    ∙ sym (scan-append chr (b ∷ bs) (joined chunks) s)

scan-matchbytes :
    (chr : ℕ) (bs : List ℕ) (s : Counters)
    → s.matchbytes + occurrences chr bs < 2 ^ 32
    → (scan chr bs s).matchbytes ≡ s.matchbytes + occurrences chr bs
unfolding scan scan_byte occurrences
scan-matchbytes chr [] s h = omega arith
scan-matchbytes chr (b ∷ bs) s h = ground (arith, scan-matchbytes chr bs (scan_byte chr b s))

lines-cons : (bs : List ℕ) → (l : List ℕ) × (ls : List (List ℕ)) × (lines bs ≡ l ∷ ls)
unfolding lines
lines-cons [] = ([], [], refl)
lines-cons (b ∷ bs) =
    let (l, ls, e) = lines-cons bs in
    elim (Bool-cases (b == b'\n')) [
      | inl nl ↦ ([], l ∷ ls, rw (e, nl))
      | inr other ↦ (b ∷ l, ls, rw (e, other))
    ]

-- The matching lines among some, where the first counts only if it was not counted before.
matching_from : ℕ → Bool → List (List ℕ) → ℕ
unfolding matching contains
matching_from chr first [] = 0
matching_from chr first (l ∷ ls) = (if contains chr l && first then 1 else 0) + matching chr ls

matching_from-true : (chr : ℕ) (ls : List (List ℕ)) → matching_from chr true ls ≡ matching chr ls
unfolding matching_from
matching_from-true chr [] = refl
matching_from-true chr (l ∷ ls) = ground arith

scan-matchlines :
    (chr : ℕ) (bs : List ℕ) (s : Counters)
    → chr ≢ b'\n'
    → s.matchlines + occurrences chr bs < 2 ^ 32
    → (scan chr bs s).matchlines ≡ s.matchlines + matching_from chr s.freshline (lines bs)
unfolding scan scan_byte occurrences matching_from lines
scan-matchlines chr [] s ne h = omega arith
scan-matchlines chr (b ∷ bs) s ne h =
    let (l, ls, e) = lines-cons bs in
    let ih : (scan chr bs (scan_byte chr b s)).matchlines
        ≡ (scan_byte chr b s).matchlines
          + matching_from chr (scan_byte chr b s).freshline (l ∷ ls) =
      subst
        (λ k.
          (scan chr bs (scan_byte chr b s)).matchlines
          ≡ (scan_byte chr b s).matchlines + matching_from chr (scan_byte chr b s).freshline k)
        e (scan-matchlines chr bs (scan_byte chr b s) ne (ground arith)) in
    rw e (ground (arith, ih))

count_file-matchbytes :
    (chr : ℕ) (chunks : List (List ℕ))
    → occurrences chr (joined chunks) < 2 ^ 32
    → (count_file chr chunks fresh).matchbytes ≡ occurrences chr (joined chunks)
count_file-matchbytes chr chunks h =
    ap (λ s. s.matchbytes) (count_file-scan chr chunks fresh)
    ∙ scan-matchbytes chr (joined chunks) fresh (omega arith)
    ∙ omega arith

count_file-matchlines :
    (chr : ℕ) (chunks : List (List ℕ))
    → chr ≢ b'\n'
    → occurrences chr (joined chunks) < 2 ^ 32
    → (count_file chr chunks fresh).matchlines ≡ matching chr (lines (joined chunks))
count_file-matchlines chr chunks ne h =
    ap (λ s. s.matchlines) (count_file-scan chr chunks fresh)
    ∙ scan-matchlines chr (joined chunks) fresh ne (omega arith)
    ∙ omega (arith, matching_from-true chr (lines (joined chunks)))

matching-le-occurrences :
    (chr : ℕ) (bs : List ℕ) (first : Bool)
    → chr ≢ b'\n'
    → matching_from chr first (lines bs) ≤ occurrences chr bs
unfolding matching_from occurrences lines
matching-le-occurrences chr [] first ne = ground arith
matching-le-occurrences chr (b ∷ bs) first ne =
    let (l, ls, e) = lines-cons bs in
    let from_start : matching_from chr true (l ∷ ls) ≤ occurrences chr bs =
      subst (λ k. matching_from chr true k ≤ occurrences chr bs) e
        (matching-le-occurrences chr bs true ne) in
    let going_on : matching_from chr false (l ∷ ls) ≤ occurrences chr bs =
      subst (λ k. matching_from chr false k ≤ occurrences chr bs) e
        (matching-le-occurrences chr bs false ne) in
    rw e (ground (arith, from_start, going_on))

-- For a file in which a character other than the newline stands fewer than 2 ^ 31 times, the first
-- number printed is on how many lines it stands and the second how often, wherever the buffers of the
-- reads end.
pub printed-count_file :
    (chr : ℕ) (chunks : List (List ℕ))
    → chr ≢ b'\n'
    → occurrences chr (joined chunks) < 2 ^ 31
    → printed (count_file chr chunks fresh)
      ≡ (pos (matching chr (lines (joined chunks))), pos (occurrences chr (joined chunks)))
unfolding printed
printed-count_file chr chunks ne few =
    let on_lines = count_file-matchlines chr chunks ne (omega (arith, few)) in
    let at_all = count_file-matchbytes chr chunks (omega (arith, few)) in
    let fewer : matching chr (lines (joined chunks)) < 2 ^ 31 = omega (
      arith,
      matching-le-occurrences chr (joined chunks) true ne,
      matching_from-true chr (lines (joined chunks)),
      few,
    ) in
    rw (on_lines, at_all)
      (ap₂ (λ a b. (a, b)) (int32_small (matching chr (lines (joined chunks))) fewer)
        (int32_small (occurrences chr (joined chunks)) few))
