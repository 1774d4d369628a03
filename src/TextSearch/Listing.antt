-- ===== src/TextSearch/Listing.antt =====
-- The paths that lab3/zad3/main.c looks at, and those that it means to print.
use mathlib.Core.List.{Memᴰ}
use mathlib.Core.Path.{subst}
use sys_opy.Common.{
  ℕ, suc, ◌<◌, ◌≡◌, refl, sym, ap, ◌∙◌, Bool, true, false, Option, none, some, List, Option-cases,
  inl, inr, arith, length,
}
use sys_opy.DirWalk.{Text, Stat, Dir, ss_push, is_dots, allows}
use sys_opy.TextSearch.{passed, found, search_file, is_searched, enters, process, seen}
use sys_opy.TextSearch.Files.{Finds, search_file-Finds}
use sys_opy.TextSearch.Walks.{at}

module _ (uid gid : ℕ) (lstat : Text → Option Stat) (opendir : Text → Option Dir) where
  -- The paths of the entries of a directory and of those up to that many levels below it.
  pub data Listed : ℕ → Text → Text → Type 0 where
    entry :
        (levels : ℕ) (dir : Text) (names : List Text) (ends : Bool) (name : Text)
        → opendir dir ≡ some (names, ends)
        → Memᴰ name names
        → is_dots name ≡ false
        → Listed levels dir (ss_push dir name)
    deeper :
        (levels : ℕ) (dir : Text) (names : List Text) (ends : Bool) (name : Text) (sb : Stat)
        (p : Text)
        → opendir dir ≡ some (names, ends)
        → Memᴰ name names
        → is_dots name ≡ false
        → lstat (ss_push dir name) ≡ some sb
        → enters uid gid sb ≡ true
        → Listed levels (ss_push dir name) p
        → Listed (suc levels) dir p

module _ (uid gid : ℕ) (needle : Text) (lstat : Text → Option Stat)
    (contents : Text → Option Text) where
  -- A file that is searched and that has the text.
  abbrev pub Has : Text → Type 0
  Has p =
      (sb : Stat) × (bytes : Text) × (lstat p ≡ some sb)
      × (is_searched uid gid p sb ≡ true)
      × (contents p ≡ some bytes)
      × Finds needle (allows sb.mode 73) bytes

process-enters :
    (uid gid : ℕ) (needle path : Text) (sb : Stat) (contents : Option Text) (prints recurse : Bool)
    → process uid gid needle path (some sb) contents ≡ passed prints recurse
    → recurse ≡ enters uid gid sb
unfolding process
process-enters uid gid needle path sb none prints recurse e = ground arith
process-enters uid gid needle path sb (some bytes) prints recurse e = ground arith

-- What the process does on a file.
process-found :
    (uid gid : ℕ) (needle path : Text) (sb : Stat) (contents : Option Text) (recurse : Bool)
    → process uid gid needle path (some sb) contents ≡ passed true recurse
    → (is_searched uid gid path sb ≡ true)
      × (bytes : Text) × (contents ≡ some bytes)
      × (search_file needle (allows sb.mode 73) bytes ≡ some found)
unfolding process
process-found uid gid needle path sb none recurse e = ground arith
process-found uid gid needle path sb (some bytes) recurse e =
    (ground arith, bytes, refl, ground arith)

process-prints :
    (uid gid : ℕ) (needle path : Text) (sb : Stat) (bytes : Text)
    → is_searched uid gid path sb ≡ true
    → search_file needle (allows sb.mode 73) bytes ≡ some found
    → process uid gid needle path (some sb) (some bytes) ≡ passed true (enters uid gid sb)
unfolding process
process-prints uid gid needle path sb bytes e f = rw (e, f) refl

module _ (uid gid : ℕ) (needle : Text) (lstat : Text → Option Stat) (contents : Text → Option Text)
    (opendir : Text → Option Dir) where
  abbrev pub Prints : Text → Type 0
  Prints p = (recurse : Bool) × (at uid gid needle lstat contents opendir p ≡ passed true recurse)

  process-none :
      (path : Text) (recurse : Bool)
      → process uid gid needle path none (contents path) ≡ passed recurse true
      → ⊥
  unfolding process
  process-none path recurse e = cc e

  unseen :
      (path : Text) (recurse : Bool)
      → process uid gid needle path none (contents path) ≡ passed true recurse
      → ⊥
  unfolding process
  unseen path recurse e = cc e

  -- A directory that is entered.
  pub entered :
      (path : Text) (prints : Bool)
      → at uid gid needle lstat contents opendir path ≡ passed prints true
      → (sb : Stat) × (lstat path ≡ some sb) × (enters uid gid sb ≡ true)
  unfolding seen
  entered path prints e =
      let answers : Option Stat → Type 0 =
        λ o. process uid gid needle path o (contents path) ≡ passed prints true in
      elim (Option-cases (lstat path)) [
        | inl n ↦ absurd (process-none path prints (subst answers n e))
        | inr (sb, s) ↦ (
          sb,
          s,
          sym (
              process-enters uid gid needle path sb (contents path) prints true
                (subst answers s e)),
        )
      ]

  pub recurses :
      (path : Text) (prints recurse : Bool) (sb : Stat)
      → at uid gid needle lstat contents opendir path ≡ passed prints recurse
      → lstat path ≡ some sb
      → enters uid gid sb ≡ true
      → recurse ≡ true
  unfolding seen
  recurses path prints recurse sb e s d =
      process-enters uid gid needle path sb (contents path) prints recurse
        (subst (λ o. process uid gid needle path o (contents path) ≡ passed prints recurse) s e)
      ∙ d

  pub Prints-Has :
      (p : Text)
      → 0 < length needle
      → length needle < 4096
      → Prints p
      → Has uid gid needle lstat contents p
  unfolding seen
  Prints-Has p pos short (r, e) =
      let answers : Option Stat → Type 0 =
        λ o. process uid gid needle p o (contents p) ≡ passed true r in
      elim (Option-cases (lstat p)) [
        | inl n ↦ absurd (unseen p r (subst answers n e))
        | inr (sb, s) ↦
            let (is, bytes, c, f) =
              process-found uid gid needle p sb (contents p) r (subst answers s e) in
            (
              sb,
              bytes,
              s,
              is,
              c,
              (search_file-Finds needle (allows sb.mode 73) bytes pos short).0 f,
            )
      ]

  pub Has-Prints :
      (p : Text)
      → 0 < length needle
      → length needle < 4096
      → Has uid gid needle lstat contents p
      → Prints p
  unfolding seen
  Has-Prints p pos short (sb, bytes, s, is, c, f) = (
    enters uid gid sb,
    ap (λ o. process uid gid needle p o (contents p)) s
        ∙ (ap (process uid gid needle p (some sb)) c
            ∙ process-prints uid gid needle p sb bytes is
                ((search_file-Finds needle (allows sb.mode 73) bytes pos short).1 f)),
  )
