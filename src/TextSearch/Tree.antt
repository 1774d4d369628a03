-- ===== src/TextSearch/Tree.antt =====
-- The walk of lab3/zad3/main.c, against the paths up to a depth of which each is looked at.
use mathlib.Core.List.{Memᴰ}
use mathlib.Core.List.Memᴰ
use mathlib.Core.Path.{subst}
use sys_opy.Common.{
  ℕ, zero, suc, ◌<◌, ◌≡◌, refl, sym, ◌∙◌, Bool, true, false, ltb, Option, none, some, List,
  Option-cases, inl, inr, ◌↔◌, arith, length,
}
use sys_opy.DirWalk.{Text, Stat, Dir, ss_push}
use sys_opy.DirWalk.Path.{all_clean}
use sys_opy.TextSearch.{passed, Report, silent, walk_dir, walk}
use sys_opy.TextSearch.Walks.{
  at, entries, here, within, entries-Somewhere, Somewhere-entries, entries-Passes,
}
use sys_opy.TextSearch.Listing.{
  Listed, entry, deeper, Has, Prints, entered, recurses, Prints-Has, Has-Prints,
}

module _ (uid gid : ℕ) (needle : Text) (lstat : Text → Option Stat) (contents : Text → Option Text)
    (opendir : Text → Option Dir) where
  walk_open :
      (deep : Bool) (below : Text → Report) (curpath : Text) (names : List Text) (ends : Bool)
      → opendir curpath ≡ some (names, ends)
      → walk_dir uid gid needle lstat contents opendir deep below curpath
        ≡ entries uid gid needle lstat contents opendir deep below curpath names ends
  unfolding walk_dir
  walk_open deep below curpath names ends e = rw (e, walk_dir) refl

  walk_closed :
      (deep : Bool) (below : Text → Report) (curpath : Text)
      → opendir curpath ≡ none
      → walk_dir uid gid needle lstat contents opendir deep below curpath ≡ silent false
  unfolding walk_dir
  walk_closed deep below curpath e = rw (e, walk_dir) refl

  abbrev walking : ℕ → Text → Report
  walking levels = walk uid gid needle lstat contents opendir (suc levels)

  -- Whether there are processes for the directories within, and what they are.
  abbrev deep_at : ℕ → Bool
  deep_at levels = ltb 1 (suc levels)

  abbrev below_at : ℕ → Text → Report
  below_at levels = walk uid gid needle lstat contents opendir levels

  walking_dir :
      (levels : ℕ) (dir : Text)
      → walking levels dir
        ≡ walk_dir uid gid needle lstat contents opendir (deep_at levels) (below_at levels) dir
  unfolding walk
  walking_dir levels dir = refl

  module _ (clean : (p : Text) (dir : Dir) → opendir p ≡ some dir → all_clean dir.0 ≡ true) where
    -- The claim for the processes of the directories within.
    abbrev Inner : ℕ → Text → Type 0
    Inner levels p =
        (path : Text)
        → deep_at levels ≡ true
        → Memᴰ p (below_at levels path).printed
        → (k : ℕ) × (levels ≡ suc k)
          × Listed uid gid lstat opendir k path p
          × Prints uid gid needle lstat contents opendir p

    sound_step :
        (levels : ℕ) (dir p : Text)
        → Inner levels p
        → Memᴰ p (walking levels dir).printed
        → Listed uid gid lstat opendir levels dir p × Prints uid gid needle lstat contents opendir p
    unfolding silent
    sound_step levels dir p inner m =
        let printed : Report → Type 0 = λ r. Memᴰ p r.printed in
        let below = below_at levels in
        elim (Option-cases (opendir dir)) [
          | inl e ↦ absurd (
              Memᴰ.not-nil (
                subst printed (walking_dir levels dir ∙ walk_closed (deep_at levels) below dir e)
                  m))
          | inr ((names, ends), e) ↦
              let (name, m', o) =
                entries-Somewhere uid gid needle lstat contents opendir (deep_at levels) below dir p
                  names ends (clean dir (names, ends) e)
                  (subst printed
                    (walking_dir levels dir ∙ walk_open (deep_at levels) below dir names ends e)
                    m) in
              elim o [
                | here recurse d f same ↦
                    subst
                      (λ q.
                        Listed uid gid lstat opendir levels dir q
                        × Prints uid gid needle lstat contents opendir q)
                      (sym same) (entry levels dir names ends name e m' d, (recurse, f))
                | within prints d f deep m₂ ↦
                    let (k, same, l, pr) = inner (ss_push dir name) deep m₂ in
                    let (sb, s, en) =
                      entered uid gid needle lstat contents opendir (ss_push dir name) prints f in
                    (
                      subst (λ t. Listed uid gid lstat opendir t dir p) (sym same)
                          (deeper k dir names ends name sb p e m' d s en l),
                      pr,
                    )
              ]
        ]

    sound :
        (levels : ℕ) (dir p : Text)
        → Memᴰ p (walking levels dir).printed
        → Listed uid gid lstat opendir levels dir p × Prints uid gid needle lstat contents opendir p
    sound zero dir p m = sound_step zero dir p (λ path d m'. absurd (ground (arith, d))) m
    sound (suc k) dir p m =
        sound_step (suc k) dir p
          (λ path d m'. (let (l, pr) = sound k path p m' in (k, refl, l, pr))) m

    complete :
        (levels : ℕ) (dir p : Text)
        → (walking levels dir).good ≡ true
        → Listed uid gid lstat opendir levels dir p
        → Prints uid gid needle lstat contents opendir p
        → Memᴰ p (walking levels dir).printed
    complete levels dir p g (entry l d names ends name e m dots) (r, f) =
        let printed : Report → Type 0 = λ r. Memᴰ p r.printed in
        let opened = walking_dir l d ∙ walk_open (deep_at l) (below_at l) d names ends e in
        subst printed (sym opened) (
          Somewhere-entries uid gid needle lstat contents opendir (deep_at l) (below_at l) d p names
            ends (clean d (names, ends) e) (subst (λ r. r.good ≡ true) opened g)
            (name, m, here r dots f refl))
    complete levels dir p g (deeper k d names ends name sb q e m dots s en below) pr =
        let opened =
          walking_dir (suc k) d ∙ walk_open (deep_at (suc k)) (below_at (suc k)) d names ends e in
        let g' = subst (λ r. r.good ≡ true) opened g in
        let c = clean d (names, ends) e in
        let deep : deep_at (suc k) ≡ true = ground arith in
        let (prints, recurse, f, below_good) =
          entries-Passes uid gid needle lstat contents opendir (deep_at (suc k)) (below_at (suc k))
            d name names ends c g' m dots in
        let r =
          recurses uid gid needle lstat contents opendir (ss_push d name) prints recurse sb f s
            en in
        let f' =
          subst (λ b. at uid gid needle lstat contents opendir (ss_push d name) ≡ passed prints b) r
            f in
        let within_it = complete k (ss_push d name) p (below_good r deep) below pr in
        subst (λ r. Memᴰ p r.printed) (sym opened)
          (Somewhere-entries uid gid needle lstat contents opendir (deep_at (suc k))
            (below_at (suc k)) d p names ends c g' (name, m, within prints dots f' deep within_it))

-- For a search text of 1 to 4095 bytes, names without slashes and a depth of `levels + 1`: where the
-- process for the directory exits with 0, a path is printed by it or by a process below it just if
-- it is the path of an entry of the directory or of a directory entered at most `levels` levels
-- below it, and is a readable file, not left out by its name or by its first bytes, that contains
-- the text.
pub walk-finds :
    (uid gid : ℕ) (needle : Text) (lstat : Text → Option Stat) (contents : Text → Option Text)
    (opendir : Text → Option Dir)
    → 0 < length needle
    → length needle < 4096
    → ((p : Text) (dir : Dir) → opendir p ≡ some dir → all_clean dir.0 ≡ true)
    → (levels : ℕ) (dir : Text)
    → (walk uid gid needle lstat contents opendir (suc levels) dir).good ≡ true
    → (p : Text)
    → Memᴰ p (walk uid gid needle lstat contents opendir (suc levels) dir).printed
      ↔ (Listed uid gid lstat opendir levels dir p × Has uid gid needle lstat contents p)
walk-finds uid gid needle lstat contents opendir pos short clean levels dir g p = (
  λ m.
      (let (l, pr) = sound uid gid needle lstat contents opendir clean levels dir p m in
        (l, Prints-Has uid gid needle lstat contents opendir p pos short pr)),
  λ (l, h).
      complete uid gid needle lstat contents opendir clean levels dir p g l
        (Has-Prints uid gid needle lstat contents opendir p pos short h),
)
