-- ===== src/DirWalk/Levels.antt =====
-- The rounds of lab2/zad3/main.c at one level and below, against the recursion over directories.
use mathlib.Core.Path.{subst}
use sys_opy.Common.{
  ℕ, zero, suc, ◌+◌, ◌<◌, ◌≡◌, Bool, true, false, if◌then◌else◌, leb, Bool-cases, Option-cases, inl,
  inr, Option, some, List, [], ◌∷◌, arith,
}
use sys_opy.DirWalk.{Text, Stat, Stats, Dir, Walk, Outcome, finished, failed, ss_push, is_dots}
use sys_opy.DirWalk.Recursive.{then_on, visit, enter_dir}
use sys_opy.DirWalk.Path.{no_slash, all_clean, all_clean-cons}
use sys_opy.DirWalk.Steps.{
  at, seen, Leads, step_on, step_exit, here, chain, round_dots, round_file, round_deep,
  round_closed, round_open, round_end,
}

module _ (uid gid : ℕ) (lstat : Text → Option Stat) (opendir : Text → Option Dir) where
  module _ (clean : (p : Text) (dir : Dir) → opendir p ≡ some dir → all_clean dir.0 ≡ true) where
    abbrev pub deep : ℕ → Text → Stats → Outcome
    deep = enter_dir uid gid lstat opendir

    abbrev pub through : ℕ → Text → List Text → Stats → Outcome
    through levels = visit uid gid lstat opendir (deep levels)

    -- A directory is walked through in the rounds.
    abbrev pub Visited : ℕ → ℕ → Type 0
    Visited levels depth =
        (path : Text) (names : List Text) (ends : Bool) (dirs : List Dir) (stats : Stats)
        → all_clean names ≡ true
        → Leads uid gid lstat opendir (at depth ((names, ends) ∷ dirs) path stats)
            (through levels path names stats) (λ stats'. at depth (([], ends) ∷ dirs) path stats')

    abbrev pub Entered : ℕ → ℕ → Type 0
    Entered levels depth =
        (path name : Text) (names : List Text) (ends : Bool) (dirs : List Dir) (stats : Stats)
        → no_slash name ≡ true
        → is_dots name ≡ false
        → (seen uid gid lstat opendir path name stats).1 ≡ true
        → Leads uid gid lstat opendir (at depth ((name ∷ names, ends) ∷ dirs) path stats)
            (deep levels (ss_push path name) (seen uid gid lstat opendir path name stats).0)
            (λ stats'. at depth ((names, ends) ∷ dirs) path stats')

    visited : (levels depth : ℕ) → Entered levels depth → Visited levels depth
    unfolding visit
    visited levels depth enters path [] ends dirs stats h =
        here uid gid lstat opendir stats (λ stats'. at depth (([], ends) ∷ dirs) path stats')
    visited levels depth enters path (name ∷ names) ends dirs stats h =
        let (s, h') = all_clean-cons name names h in
        let go = visited levels depth enters path names ends dirs in
        let w = at depth ((name ∷ names, ends) ∷ dirs) path stats in
        let k : Stats → Walk = λ stats'. at depth (([], ends) ∷ dirs) path stats' in
        let stats₁ = (seen uid gid lstat opendir path name stats).0 in
        elim (Bool-cases (is_dots name)) [
          | inl e ↦ rw e (
              step_on uid gid lstat opendir w (at depth ((names, ends) ∷ dirs) path stats)
                (through levels path names stats) k
                (round_dots uid gid lstat opendir depth names ends dirs path name stats e)
                (go stats h'))
          | inr e ↦ elim (Bool-cases (seen uid gid lstat opendir path name stats).1) [
            | inl f ↦
                rw (e, f)
                  (chain uid gid lstat opendir w (deep levels (ss_push path name) stats₁)
                    (through levels path names)
                    (λ stats'. at depth ((names, ends) ∷ dirs) path stats') k
                    (enters path name names ends dirs stats s e f) (λ stats'. go stats' h'))
            | inr f ↦
                rw (e, f)
                  (step_on uid gid lstat opendir w (at depth ((names, ends) ∷ dirs) path stats₁)
                    (through levels path names stats₁) k
                    (round_file uid gid lstat opendir depth names ends dirs path name stats e f s)
                    (go stats₁ h'))
          ]
        ]

    Entered-zero : Entered 0 255
    unfolding enter_dir
    Entered-zero path name names ends dirs stats s e f =
        let k : Stats → Walk = λ stats'. at 255 ((names, ends) ∷ dirs) path stats' in
        let out = failed (seen uid gid lstat opendir path name stats).0 in
        step_on uid gid lstat opendir (at 255 ((name ∷ names, ends) ∷ dirs) path stats) (k out)
          (finished out) k
          (round_deep uid gid lstat opendir 255 names ends dirs path name stats e f (ground arith)
            s)
          (here uid gid lstat opendir out k)

    Entered-suc :
        (levels depth : ℕ) → depth < 255 → Visited levels (depth + 1) → Entered (suc levels) depth
    unfolding enter_dir
    Entered-suc levels depth lt visits path name names ends dirs stats s e f =
        let p = ss_push path name in
        let stats₁ = (seen uid gid lstat opendir path name stats).0 in
        let w = at depth ((name ∷ names, ends) ∷ dirs) path stats in
        let k : Stats → Walk = λ stats'. at depth ((names, ends) ∷ dirs) path stats' in
        let room : leb 256 (depth + 1) ≡ false = ground (arith, lt) in
        elim (Option-cases (opendir p)) [
          | inl o ↦
              rw (o, enter_dir)
                (step_exit uid gid lstat opendir w k (
                  round_closed uid gid lstat opendir depth names ends dirs path name stats e f room
                    o))
          | inr (dir, o) ↦
              let inner = at (depth + 1) (dir ∷ (names, ends) ∷ dirs) p stats₁ in
              let out =
                then_on (through levels p dir.0 stats₁)
                  (λ stats'. finished (if dir.1 then stats' else failed stats')) in
              let k' : Stats → Walk =
                λ stats'. at (depth + 1) (([], dir.1) ∷ (names, ends) ∷ dirs) p stats' in
              let done : (stats' : Stats)
                  → Leads uid gid lstat opendir (k' stats')
                      (finished (if dir.1 then stats' else failed stats')) k =
                λ stats'.
                  let last = if dir.1 then stats' else failed stats' in
                  step_on uid gid lstat opendir (k' stats') (k last) (finished last) k
                    (round_end uid gid lstat opendir depth dir.1 ((names, ends) ∷ dirs) path name
                      stats' s)
                    (here uid gid lstat opendir last k) in
              rw (o, enter_dir)
                (step_on uid gid lstat opendir w inner out k
                  (round_open uid gid lstat opendir depth names ends dirs path name stats dir e f
                    room o)
                  (chain uid gid lstat opendir inner (through levels p dir.0 stats₁)
                    (λ stats'. finished (if dir.1 then stats' else failed stats')) k' k
                    (visits p dir.0 dir.1 ((names, ends) ∷ dirs) stats₁ (clean p dir o)) done))
        ]

    pub Visited-all : (levels depth : ℕ) → levels + depth ≡ 255 → Visited levels depth
    Visited-all zero depth e =
        let last : 255 ≡ depth = omega (arith, e) in
        subst (λ d. Visited 0 d) last (visited 0 255 Entered-zero)
    Visited-all (suc levels) depth e = visited (suc levels) depth (
        Entered-suc levels depth (omega (arith, e))
          (Visited-all levels (depth + 1) (omega (arith, e))))
