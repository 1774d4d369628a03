-- ===== src/DirWalk.antt =====
-- The walk of lab2/zad3/main.c through a directory, in the build without nftw. `lstat` and `opendir`
-- answer for the file system: an open directory is the list of the names that are still to be read,
-- and whether its end is an end and not a failure. The path is a text, whose growing buffer
-- is in DirWalk/Buffer; failures of `closedir` and the texts printed are left out too.
pub mod Buffer
pub mod Recursive
pub mod Path
pub mod Steps
pub mod Levels
pub mod Run
pub mod Tests
use Prim.Native.Nat.{bit_and}
use sys_opy.Common.{
  ℕ, zero, suc, ◌+◌, ◌-◌, ◌%◌, ◌^◌, Bool, true, false, ◌&&◌, ◌||◌, not, if◌then◌else◌, ltb, leb,
  ◌==◌, str_eq, Option, none, some, List, [], ◌∷◌, ◌++◌,
}

abbrev pub Text : Type 0
Text = List ℕ

pub record Stat : Type 0 where
  pub mode : ℕ
  pub size : ℕ
  pub owner : ℕ
  pub group : ℕ

pub record Stats : Type 0 where
  pub n_file : ℕ
  pub n_dir : ℕ
  pub n_char : ℕ
  pub n_blk : ℕ
  pub n_fifo : ℕ
  pub n_sym : ℕ
  pub n_sock : ℕ
  pub n_fail : ℕ
  pub total_bytes : ℕ
  -- The paths printed, the last one first.
  pub printed : List Text

pub more : ℕ → ℕ
more n = (n + 1) % 2 ^ 32

pub failed : Stats → Stats
unfolding more
failed stats = record stats { n_fail = more stats.n_fail }

-- The counters; the modes are S_IFSOCK, S_IFLNK, S_IFREG, S_IFBLK, S_IFDIR, S_IFCHR and S_IFIFO.
pub counted : ℕ → Stats → Option Stats
unfolding more
counted kind stats =
    if kind == 49152
    then some (record stats { n_sock = more stats.n_sock })
    else if kind == 40960
    then some (record stats { n_sym = more stats.n_sym })
    else if kind == 32768
    then some (record stats { n_file = more stats.n_file })
    else if kind == 24576
    then some (record stats { n_blk = more stats.n_blk })
    else if kind == 16384
    then some (record stats { n_dir = more stats.n_dir })
    else if kind == 8192
    then some (record stats { n_char = more stats.n_char })
    else if kind == 4096
    then some (record stats { n_fifo = more stats.n_fifo })
    else none

pub report : Text → Stat → Stats → Stats
unfolding failed counted
report path sb stats = elim (counted (bit_and sb.mode 61440) stats) [
  | none ↦ failed stats
  | some stats' ↦ record stats' {
    total_bytes = (stats'.total_bytes + sb.size) % 2 ^ 64;
    printed = path ∷ stats'.printed;
  }
]

-- Whether the mode has a bit.
unfoldable pub allows : ℕ → ℕ → Bool
allows mode bit = ltb 0 (bit_and mode bit)

-- Whether the directory may be read and entered.
pub may_enter : ℕ → ℕ → Stat → Bool
unfolding allows
may_enter uid gid sb =
    (bit_and sb.mode 61440 == 16384)
    && (if sb.owner == uid
        then allows sb.mode 256 && allows sb.mode 64
        else if sb.group == gid
        then allows sb.mode 32 && allows sb.mode 8
        else allows sb.mode 4 && allows sb.mode 1)

-- `none` is a failure of `lstat`.
pub process : ℕ → ℕ → Text → Option Stat → Stats → Stats × Bool
unfolding failed report may_enter
process uid gid path none stats = (failed (record stats { printed = path ∷ stats.printed }), false)
process uid gid path (some sb) stats = (report path sb stats, may_enter uid gid sb)

unfoldable pub ss_push : Text → Text → Text
ss_push path name = path ++ b'/' ∷ name

-- What stands before the last slash, or `none` where there is no slash.
unfoldable pub ss_pop : Text → Option Text
ss_pop [] = none
ss_pop (c ∷ cs) = elim (ss_pop cs) [
  | some head ↦ some (c ∷ head)
  | none ↦ if c == b'/' then some [] else none
]

-- The entries `.` and `..`.
unfoldable pub is_dots : Text → Bool
is_dots name = str_eq name (b'.' ∷ []) || str_eq name (b'.' ∷ b'.' ∷ [])

-- The names still to be read, and whether the directory ends well.
abbrev pub Dir : Type 0
Dir = List Text × Bool

-- The innermost directory stands first in `dirs`.
pub record Walk : Type 0 where
  pub depth : ℕ
  pub dirs : List Dir
  pub fullpath : Text
  pub stats : Stats

-- The end of the walk, or of the process by a failed assertion or by `exit`.
pub data Outcome : Type 0 where
  exited : Outcome
  finished : Stats → Outcome

pub data Next : Type 0 where
  go_on : Walk → Next
  stop : Outcome → Next

-- The path without its last name.
pub popped : Walk → Next
unfolding ss_pop
popped w = elim (ss_pop w.fullpath) [
  | none ↦ stop exited
  | some path ↦ go_on (record w { fullpath = path })
]

-- The end of a directory.
pub leave : List Dir → Walk → Next
unfolding popped
leave dirs w =
    if w.depth == 0
    then stop (finished w.stats)
    else popped (record w { depth = w.depth - 1; dirs = dirs })

module _ (uid gid : ℕ) (lstat : Text → Option Stat) (opendir : Text → Option Dir) where
  -- The entry `name`: the rounds of the loop that push it.
  pub entry : Text → Walk → Next
  unfolding process ss_push popped failed
  entry name w =
      let path = ss_push w.fullpath name in
      let (stats, enters) = process uid gid path (lstat path) w.stats in
      let w' = record w { fullpath = path; stats = stats } in
      if not enters
      then popped w'
      else if leb 256 (w.depth + 1)
      then popped (record w' { stats = failed stats })
      else elim (opendir path) [
        | none ↦ stop exited
        | some dir ↦ go_on (record w' { depth = w.depth + 1; dirs = dir ∷ w.dirs })
      ]

  -- A round of the loop. There is an open directory at every depth.
  pub round : Walk → Next
  unfolding leave entry is_dots failed
  round w = elim w.dirs [
    | [] ↦ stop exited
    | (([], ends) ∷ dirs) ↦ leave dirs (if ends then w else record w { stats = failed w.stats })
    | ((name ∷ names, ends) ∷ dirs) ↦
        let w' = record w { dirs = (names, ends) ∷ dirs } in
        if is_dots name then go_on w' else entry name w'
  ]

  pub rounds : ℕ → Walk → Option Outcome
  unfolding round
  rounds zero w = none
  rounds (suc fuel) w = elim (round w) [ stop out ↦ some out | go_on w' ↦ rounds fuel w' ]

  -- The walk from a directory, with no path printed so far.
  unfoldable pub walk : ℕ → Text → Stats → Option Outcome
  unfolding process rounds
  walk fuel path stats₀ =
      let (stats, enters) = process uid gid path (lstat path) stats₀ in
      if not enters then some (finished stats) else elim (opendir path) [
        | none ↦ some exited
        | some dir ↦
            rounds fuel (record { depth = 0; dirs = dir ∷ []; fullpath = path; stats = stats })
      ]
