-- ===== src/DirWalk/Recursive.antt =====
-- The walk of lab2/zad3/main.c as a recursion over directories within directories.
use sys_opy.Common.{ℕ, zero, suc, if◌then◌else◌, Option, none, some, List, [], ◌∷◌}
use sys_opy.DirWalk.{
  Text, Stat, Stats, Dir, Outcome, exited, finished, failed, process, ss_push, is_dots,
}

unfoldable pub then_on : Outcome → (Stats → Outcome) → Outcome
then_on exited next = exited
then_on (finished stats) next = next stats

module _ (uid gid : ℕ) (lstat : Text → Option Stat) (opendir : Text → Option Dir) where
  -- The names of a directory one after the other; `enter` is the walk through one of them that is
  -- a directory.
  unfoldable pub visit : (Text → Stats → Outcome) → Text → List Text → Stats → Outcome
  unfolding then_on
  visit enter path [] stats = finished stats
  visit enter path (name ∷ names) stats =
      let (stats', enters) =
        process uid gid (ss_push path name) (lstat (ss_push path name)) stats in
      if is_dots name
      then visit enter path names stats
      else if enters
      then then_on (enter (ss_push path name) stats') (visit enter path names)
      else visit enter path names stats'

  -- The walk through a directory when that many levels more may be entered.
  unfoldable pub enter_dir : ℕ → Text → Stats → Outcome
  unfolding then_on visit
  enter_dir zero path stats = finished (failed stats)
  enter_dir (suc levels) path stats = elim (opendir path) [
    | none ↦ exited
    | some (names, ends) ↦
        then_on (visit (enter_dir levels) path names stats)
          (λ stats'. finished (if ends then stats' else failed stats'))
  ]
