-- ===== src/TextSearch/Program.antt =====
-- `main` of lab3/zad3/main.c: its arguments, and the process that it starts. `chdir` tells whether
-- the directory can be made the current one, for which the file system then answers.
use mathlib.Core.List.{Memᴰ}
use mathlib.Core.Path.{subst}
use sys_opy.Common.{
  ℕ, suc, Bool, true, false, not, if◌then◌else◌, ltb, Option, none, some, List, [], ◌∷◌, length,
  ◌≡◌, ◌<◌, ◌↔◌, sym, ap, ◌∙◌, refl, arith,
}
use sys_opy.Common.Int.{ℤ, pos}
use sys_opy.Strtol.{strtol}
use sys_opy.DirWalk.{Text, Stat, Dir}
use sys_opy.TextSearch.{Report, silent, walk}
use sys_opy.DirWalk.Path.{all_clean}
use sys_opy.TextSearch.Listing.{Listed, Has}
use sys_opy.TextSearch.Tree.{walk-finds}

-- The whole text has to be a number.
unfoldable pub parse_int : Text → Option ℤ
unfolding strtol
parse_int str = elim (strtol str) [ some (n, fits, []) ↦ some n | other ↦ none ]

-- The end of the program.
pub data Outcome : Type 0 where
  usage : Outcome
  too_short : Outcome
  exited : Report → Outcome

module _ (uid gid : ℕ) (lstat : Text → Option Stat) (contents : Text → Option Text)
    (opendir : Text → Option Dir) (chdir : Text → Bool) where
  -- The first process.
  unfoldable pub searcher : Text → Text → ℕ → Report
  unfolding silent walk
  searcher dir needle depth =
      if not (chdir dir)
      then silent false
      else walk uid gid needle lstat contents opendir depth (b'.' ∷ [])

  -- What stands behind the name of the program.
  unfoldable pub main : List Text → Outcome
  unfolding parse_int searcher
  main (dir ∷ (needle ∷ (max_depth ∷ []))) = elim (parse_int max_depth) [
    | some (pos (suc d)) ↦
        if ltb (length needle) 1 then too_short else exited (searcher dir needle (suc d))
    | other ↦ usage
  ]
  main other = usage

  searcher-walk :
      (dir needle : Text) (depth : ℕ)
      → chdir dir ≡ true
      → searcher dir needle depth ≡ walk uid gid needle lstat contents opendir depth (b'.' ∷ [])
  unfolding searcher
  searcher-walk dir needle depth e = rw e refl

  main-searcher :
      (dir needle max_depth : Text) (levels : ℕ)
      → 0 < length needle
      → parse_int max_depth ≡ some (pos (suc levels))
      → main (dir ∷ (needle ∷ (max_depth ∷ []))) ≡ exited (searcher dir needle (suc levels))
  unfolding main
  main-searcher dir needle max_depth levels some_text e =
      let long : ltb (length needle) 1 ≡ false = ground (arith, some_text) in
      rw (e, long, main) refl

report_of : Outcome → Report
unfolding silent
report_of (exited r) = r
report_of other = silent false

-- For a search text of 1 to 4095 bytes, a directory that can be entered, a depth of `levels + 1` and
-- names without slashes: where the first process exits with 0, the paths printed by all processes
-- are those of the entries of the directory and of the directories entered at most `levels` levels
-- below it that are readable files, not left out by their names or by their first bytes, and contain
-- the text.
pub main-finds :
    (uid gid : ℕ) (lstat : Text → Option Stat) (contents : Text → Option Text)
    (opendir : Text → Option Dir) (chdir : Text → Bool) (dir needle max_depth : Text) (levels : ℕ)
    → 0 < length needle
    → length needle < 4096
    → chdir dir ≡ true
    → parse_int max_depth ≡ some (pos (suc levels))
    → ((p : Text) (names : Dir) → opendir p ≡ some names → all_clean names.0 ≡ true)
    → (report : Report)
    → main uid gid lstat contents opendir chdir (dir ∷ (needle ∷ (max_depth ∷ []))) ≡ exited report
    → report.good ≡ true
    → (p : Text)
    → Memᴰ p report.printed
      ↔ (Listed uid gid lstat opendir levels (b'.' ∷ []) p × Has uid gid needle lstat contents p)
unfolding report_of
main-finds uid gid lstat contents opendir chdir dir needle max_depth levels some_text short enters
      parsed clean report e good p =
    let same : walk uid gid needle lstat contents opendir (suc levels) (b'.' ∷ []) ≡ report =
      sym (searcher-walk uid gid lstat contents opendir chdir dir needle (suc levels) enters)
      ∙ ap report_of (
          sym (
            main-searcher uid gid lstat contents opendir chdir dir needle max_depth levels some_text
              parsed)
          ∙ e) in
    subst
      (λ r.
        Memᴰ p r.printed
        ↔ (Listed uid gid lstat opendir levels (b'.' ∷ []) p × Has uid gid needle lstat contents p))
      same
      (walk-finds uid gid needle lstat contents opendir some_text short clean levels (b'.' ∷ [])
        (subst (λ r. r.good ≡ true) (sym same) good) p)
