-- ===== src/DirWalk/Steps.antt =====
-- The rounds of lab2/zad3/main.c, one by one and in sequence.
use sys_opy.Common.{
  ℕ, suc, ◌+◌, ◌-◌, ◌≡◌, refl, ap, ◌∙◌, Bool, true, false, if◌then◌else◌, leb, ◌==◌, Option, none,
  some, List, [], ◌∷◌, arith,
}
use sys_opy.DirWalk.{
  Text, Stat, Stats, Dir, Walk, Outcome, exited, finished, Next, go_on, stop, failed, process,
  ss_push, is_dots, popped, leave, entry, round, rounds,
}
use sys_opy.DirWalk.Recursive.{then_on}
use sys_opy.DirWalk.Path.{no_slash, ss_pop-ss_push}

abbrev pub at : ℕ → List Dir → Text → Stats → Walk
at depth dirs path stats = record { depth = depth; dirs = dirs; fullpath = path; stats = stats }

popped-push :
    (depth : ℕ) (dirs : List Dir) (path name : Text) (stats : Stats)
    → no_slash name ≡ true
    → popped (at depth dirs (ss_push path name) stats) ≡ go_on (at depth dirs path stats)
unfolding popped
popped-push depth dirs path name stats h = rw (ss_pop-ss_push path name h, popped) refl

pub end_stats :
    (depth : ℕ) (dirs : List Dir) (path : Text) (stats : Stats) (ends : Bool)
    → (if ends
        then at depth dirs path stats
        else record (at depth dirs path stats) { stats = failed stats })
      ≡ at depth dirs path (if ends then stats else failed stats)
end_stats depth dirs path stats true = refl
end_stats depth dirs path stats false = refl

module _ (uid gid : ℕ) (lstat : Text → Option Stat) (opendir : Text → Option Dir) where
  abbrev pub run : ℕ → Walk → Option Outcome
  run = rounds uid gid lstat opendir

  abbrev pub next : Walk → Next
  next = round uid gid lstat opendir

  -- What comes of an entry.
  abbrev pub seen : Text → Text → Stats → Stats × Bool
  seen path name stats = process uid gid (ss_push path name) (lstat (ss_push path name)) stats

  run_on : (fuel : ℕ) (w w' : Walk) → next w ≡ go_on w' → run (suc fuel) w ≡ run fuel w'
  unfolding rounds
  run_on fuel w w' e = rw (e, rounds) refl

  pub run_stop :
      (fuel : ℕ) (w : Walk) (out : Outcome) → next w ≡ stop out → run (suc fuel) w ≡ some out
  unfolding rounds
  run_stop fuel w out e = rw (e, rounds) refl

  unfoldable pub resume : ℕ → Outcome → (Stats → Walk) → Option Outcome
  unfolding rounds
  resume fuel exited k = some exited
  resume fuel (finished stats) k = rounds uid gid lstat opendir fuel (k stats)

  -- The rounds from `w` on give that outcome, and where it is not the end they go on at `k`.
  abbrev pub Leads : Walk → Outcome → (Stats → Walk) → Type 0
  Leads w out k = (n : ℕ) × ((fuel : ℕ) → run (n + fuel) w ≡ resume fuel out k)

  pub step_on :
      (w w' : Walk) (out : Outcome) (k : Stats → Walk)
      → next w ≡ go_on w'
      → Leads w' out k
      → Leads w out k
  step_on w w' out k e (n, h) = (
    suc n,
    λ fuel.
        let more : suc n + fuel ≡ suc (n + fuel) = omega arith in
        ap (λ t. run t w) more ∙ run_on (n + fuel) w w' e ∙ h fuel,
  )

  pub step_exit : (w : Walk) (k : Stats → Walk) → next w ≡ stop exited → Leads w exited k
  unfolding resume
  step_exit w k e = (
    1,
    λ fuel.
        let more : 1 + fuel ≡ suc fuel = omega arith in
        ap (λ t. run t w) more ∙ run_stop fuel w exited e,
  )

  pub here : (stats : Stats) (k : Stats → Walk) → Leads (k stats) (finished stats) k
  unfolding resume
  here stats k =
      (0, λ fuel. let same : 0 + fuel ≡ fuel = omega arith in ap (λ t. run t (k stats)) same)

  pub chain :
      (w : Walk) (out : Outcome) (after : Stats → Outcome) (k k' : Stats → Walk)
      → Leads w out k
      → ((stats : Stats) → Leads (k stats) (after stats) k')
      → Leads w (then_on out after) k'
  unfolding resume then_on
  chain w exited after k k' (n, h) on = (n, h)
  chain w (finished stats) after k k' (n, h) on =
      let (m, g) = on stats in
      (
        n + m,
        λ fuel.
            let more : (n + m) + fuel ≡ n + (m + fuel) = omega arith in
            ap (λ t. run t w) more ∙ h (m + fuel) ∙ g fuel,
      )

  module _ (depth : ℕ) (names : List Text) (ends : Bool) (dirs : List Dir) (path name : Text)
      (stats : Stats) where
    abbrev pub before : Walk
    before = at depth ((name ∷ names, ends) ∷ dirs) path stats

    abbrev pub after : Stats → Walk
    after stats' = at depth ((names, ends) ∷ dirs) path stats'

    pub round_dots : is_dots name ≡ true → next before ≡ go_on (after stats)
    unfolding round
    round_dots e = rw e refl

    pub round_file :
        is_dots name ≡ false
        → (seen path name stats).1 ≡ false
        → no_slash name ≡ true
        → next before ≡ go_on (after (seen path name stats).0)
    unfolding round entry
    round_file e f s =
        rw (e, f) (popped-push depth ((names, ends) ∷ dirs) path name (seen path name stats).0 s)

    pub round_deep :
        is_dots name ≡ false
        → (seen path name stats).1 ≡ true
        → leb 256 (depth + 1) ≡ true
        → no_slash name ≡ true
        → next before ≡ go_on (after (failed (seen path name stats).0))
    unfolding round entry
    round_deep e f d s =
        rw (e, f, d)
          (popped-push depth ((names, ends) ∷ dirs) path name (failed (seen path name stats).0) s)

    pub round_closed :
        is_dots name ≡ false
        → (seen path name stats).1 ≡ true
        → leb 256 (depth + 1) ≡ false
        → opendir (ss_push path name) ≡ none
        → next before ≡ stop exited
    unfolding round entry
    round_closed e f d o = rw (e, f, d, o) refl

    pub round_open :
        (dir : Dir)
        → is_dots name ≡ false
        → (seen path name stats).1 ≡ true
        → leb 256 (depth + 1) ≡ false
        → opendir (ss_push path name) ≡ some dir
        → next before
          ≡ go_on (
              at
                (depth + 1)
                (dir ∷ (names, ends) ∷ dirs)
                (ss_push path name)
                (seen path name stats).0)
    unfolding round entry
    round_open dir e f d o = rw (e, f, d, o) refl

  -- The end of a directory that was entered.
  pub round_end :
      (depth : ℕ) (ends : Bool) (dirs : List Dir) (path name : Text) (stats : Stats)
      → no_slash name ≡ true
      → next (at (depth + 1) (([], ends) ∷ dirs) (ss_push path name) stats)
        ≡ go_on (at depth dirs path (if ends then stats else failed stats))
  unfolding round leave
  round_end depth ends dirs path name stats s =
      let above : (depth + 1 == 0) ≡ false = ground arith in
      let back : depth + 1 - 1 ≡ depth = omega arith in
      let stats' = if ends then stats else failed stats in
      let w = at (depth + 1) (([], ends) ∷ dirs) (ss_push path name) in
      ap (leave dirs) (end_stats (depth + 1) (([], ends) ∷ dirs) (ss_push path name) stats ends)
      ∙ rw (above, back) (popped-push depth dirs path name stats' s)
