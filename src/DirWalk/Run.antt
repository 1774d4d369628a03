-- ===== src/DirWalk/Run.antt =====
-- The whole run of lab2/zad3/main.c against the recursion over directories.
use sys_opy.Common.{
  ℕ, suc, ◌+◌, ◌-◌, ◌≤◌, ◌≡◌, refl, sym, ap, ◌∙◌, Bool, true, if◌then◌else◌, Bool-cases,
  Option-cases, inl, inr, Option, none, some, [], ◌∷◌, arith,
}
use sys_opy.DirWalk.{
  Text, Stat, Stats, Dir, Outcome, exited, finished, failed, process, leave, round, walk,
}
use sys_opy.DirWalk.Recursive.{then_on, visit, enter_dir}
use sys_opy.DirWalk.Path.{all_clean}
use sys_opy.DirWalk.Steps.{at, run, run_stop, resume, end_stats}
use sys_opy.DirWalk.Levels.{through, Visited-all}

module _ (uid gid : ℕ) (lstat : Text → Option Stat) (opendir : Text → Option Dir) where
  module _ (clean : (p : Text) (dir : Dir) → opendir p ≡ some dir → all_clean dir.0 ≡ true) where
    -- The outermost directory.
    top_end :
        (fuel : ℕ) (ends : Bool) (path : Text) (stats : Stats)
        → run uid gid lstat opendir (suc fuel) (at 0 (([], ends) ∷ []) path stats)
          ≡ some (finished (if ends then stats else failed stats))
    unfolding round leave
    top_end fuel ends path stats =
        run_stop uid gid lstat opendir fuel (at 0 (([], ends) ∷ []) path stats)
          (finished (if ends then stats else failed stats))
          (ap (leave []) (end_stats 0 (([], ends) ∷ []) path stats ends))

    top_run :
        (dir : Dir) (path : Text) (stats : Stats) (fuel : ℕ) (out : Outcome)
        → resume uid gid lstat opendir
            (suc fuel)
            out
            (λ stats'. at 0 (([], dir.1) ∷ []) path stats')
          ≡ some (then_on out (λ stats'. finished (if dir.1 then stats' else failed stats')))
    unfolding resume then_on
    top_run dir path stats fuel exited = refl
    top_run dir path stats fuel (finished stats') = top_end fuel dir.1 path stats'

    top_walk :
        (dir : Dir) (path : Text) (stats : Stats)
        → all_clean dir.0 ≡ true
        → (n : ℕ) × ((fuel : ℕ)
            → n ≤ fuel
            → run uid gid lstat opendir fuel (at 0 (dir ∷ []) path stats)
              ≡ some (
                  then_on
                    (through uid gid lstat opendir clean 255 path dir.0 stats)
                    (λ stats'. finished (if dir.1 then stats' else failed stats'))))
    top_walk dir path stats h =
        let (n, go) =
          Visited-all uid gid lstat opendir clean 255 0 refl path dir.0 dir.1 [] stats h in
        (
          suc n,
          λ fuel le.
              let split : fuel ≡ n + suc (fuel - suc n) = omega (arith, le) in
              ap (λ t. run uid gid lstat opendir t (at 0 (dir ∷ []) path stats)) split
              ∙ go (suc (fuel - suc n))
              ∙ top_run dir path stats (fuel - suc n)
                  (through uid gid lstat opendir clean 255 path dir.0 stats),
        )

  walk_in :
      (fuel : ℕ) (path : Text) (stats : Stats) (dir : Dir)
      → (process uid gid path (lstat path) stats).1 ≡ true
      → opendir path ≡ some dir
      → walk uid gid lstat opendir fuel path stats
        ≡ run uid gid lstat opendir fuel
            (at 0 (dir ∷ []) path (process uid gid path (lstat path) stats).0)
  unfolding walk
  walk_in fuel path stats dir f o = rw (f, o) refl

  enter_none :
      (levels : ℕ) (path : Text) (stats : Stats)
      → opendir path ≡ none
      → enter_dir uid gid lstat opendir (suc levels) path stats ≡ exited
  unfolding enter_dir
  enter_none levels path stats o = rw (o, enter_dir) refl

  enter_some :
      (levels : ℕ) (path : Text) (stats : Stats) (dir : Dir)
      → opendir path ≡ some dir
      → enter_dir uid gid lstat opendir (suc levels) path stats
        ≡ then_on
            (visit uid gid lstat opendir (enter_dir uid gid lstat opendir levels) path dir.0 stats)
            (λ stats'. finished (if dir.1 then stats' else failed stats'))
  unfolding enter_dir
  enter_some levels path stats dir o = rw (o, enter_dir) refl

-- In a file system whose names have no slash the walk ends, with as much fuel as it needs, and its
-- outcome, with the counters and the paths printed, is that of the recursion over the directories
-- down to 256 levels: a directory further down is counted as a failure, and one that does not open
-- ends the program.
pub walk-enter_dir :
    (uid gid : ℕ) (lstat : Text → Option Stat) (opendir : Text → Option Dir) (path : Text)
    (stats : Stats)
    → ((p : Text) (dir : Dir) → opendir p ≡ some dir → all_clean dir.0 ≡ true)
    → (n : ℕ) × ((fuel : ℕ)
        → n ≤ fuel
        → walk uid gid lstat opendir fuel path stats
          ≡ some (
              if (process uid gid path (lstat path) stats).1
              then enter_dir uid gid lstat opendir 256 path
                  (process uid gid path (lstat path) stats).0
              else finished (process uid gid path (lstat path) stats).0))
unfolding walk
walk-enter_dir uid gid lstat opendir path stats clean =
    let stats₁ = (process uid gid path (lstat path) stats).0 in
    elim (Bool-cases (process uid gid path (lstat path) stats).1) [
      | inr f ↦ (0, λ fuel h. rw f refl)
      | inl f ↦ elim (Option-cases (opendir path)) [
        | inl o ↦ (
          0,
          λ fuel h. rw (f, o) (ap some (sym (enter_none uid gid lstat opendir 255 path stats₁ o))),
        )
        | inr (dir, o) ↦
            let (n, go) = top_walk uid gid lstat opendir clean dir path stats₁ (clean path dir o) in
            (
              n,
              λ fuel le.
                  walk_in uid gid lstat opendir fuel path stats dir f o
                  ∙ go fuel le
                  ∙ ap some (sym (rw f (enter_some uid gid lstat opendir 255 path stats₁ dir o))),
            )
      ]
    ]
