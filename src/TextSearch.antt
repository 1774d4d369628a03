-- ===== src/TextSearch.antt =====
-- The search of lab3/zad3/main.c: a process for each directory looks for a text in the files of the
-- directory. `lstat`, `opendir` and `contents` answer for the file system; a file is read as a list
-- of bytes, and a read gets all that fits. Failures of `read`, `close`, `closedir`, `fork` and
-- `wait` are left out. What a process prints stands where it is started.
pub mod Occurs
pub mod Chunks
pub mod Files
pub mod Walks
pub mod Listing
pub mod Tree
pub mod Program
pub mod Tests
use Prim.Native.Nat.{bit_and}
use sys_opy.Common.{
  ℕ, zero, suc, ◌+◌, ◌-◌, ◌%◌, ◌^◌, Bool, true, false, ◌&&◌, ◌||◌, not, if◌then◌else◌, ltb, leb,
  ◌==◌, Option, none, some, List, [], ◌∷◌, ◌++◌, length, take, drop,
}
use sys_opy.DirWalk.{Text, Stat, Dir, allows, ss_push, ss_pop, is_dots}

pub starts_with : Text → Text → Bool
starts_with [] text = true
starts_with (c ∷ cs) [] = false
starts_with (c ∷ cs) (d ∷ ds) = (c == d) && starts_with cs ds

-- What follows from the first place on where `sub` stands; also `strstr`.
pub memmem : Text → Text → Option Text
unfolding starts_with
memmem [] sub = if starts_with sub [] then some [] else none
memmem (c ∷ cs) sub =
    let later = memmem cs sub in if starts_with sub (c ∷ cs) then some (c ∷ cs) else later

-- The end of the search in a file; `aborted` is a failed assertion.
pub data Search : Type 0 where
  found : Search
  absent : Search
  aborted : Search

-- The bytes kept at the start of the buffer, and what is still to be read.
pub data Round : Type 0 where
  again : Text → Text → Round
  over : Search → Round

abbrev pub shebang : Text
shebang = b'#' ∷ b'!' ∷ []

-- How many bytes a round asks for.
abbrev pub want : Text → Bool → ℕ
want needle first = if first then 4096 else (2 ^ 64 + 4096 - length needle) % 2 ^ 64

-- The search in what the buffer holds; `rest` is not read yet.
pub look : Text → Text → Text → Round
unfolding memmem
look needle buf rest = elim (memmem buf needle) [
  | some ptr ↦ over found
  | none ↦
      if ltb (length buf) (length needle)
      then over aborted
      else again (drop (length buf - length needle) buf) rest
]

pub search_round : Text → Bool → Bool → Text → Text → Round
unfolding look starts_with
search_round needle shebangchk first kept rest =
    let got = take (want needle first) rest in
    let buf = if first then got else kept ++ got in
    if length got == 0
    then over absent
    else if first && (shebangchk && (leb 2 (length buf) && not (starts_with shebang buf)))
    then over absent
    else look needle buf (drop (length got) rest)

pub search_loop : ℕ → Text → Bool → Bool → Text → Text → Option Search
unfolding search_round
search_loop zero needle shebangchk first kept rest = none
search_loop (suc fuel) needle shebangchk first kept rest =
    elim (search_round needle shebangchk first kept rest) [
      | over out ↦ some out
      | again kept' rest' ↦ search_loop fuel needle shebangchk false kept' rest'
    ]

-- Each round but the last reads a byte.
unfoldable pub search_file : Text → Bool → Text → Option Search
unfolding search_loop
search_file needle shebangchk bytes = search_loop (length bytes + 1) needle shebangchk true [] bytes

-- The first place where the extension stands is the end of the path.
pub ends_at : Text → Text → Bool
unfolding memmem
ends_at path ext = elim (memmem path ext) [ none ↦ false | some rest ↦ length rest == length ext ]

pub is_binary : Text → Bool
unfolding ends_at
is_binary path =
    ends_at path (b'.' ∷ b'o' ∷ [])
    || (ends_at path (b'.' ∷ b'p' ∷ b'n' ∷ b'g' ∷ [])
        || (ends_at path (b'.' ∷ b'g' ∷ b'z' ∷ [])
            || (ends_at path (b'.' ∷ b'z' ∷ b'i' ∷ b'p' ∷ [])
                || ends_at path (b'.' ∷ b'c' ∷ b'o' ∷ b'r' ∷ b'e' ∷ []))))

-- The process ends, or goes on: whether the path is printed, and whether to search below it.
pub data Seen : Type 0 where
  failed : Seen
  passed : Bool → Bool → Seen

module _ (uid gid : ℕ) where
  -- `usr`, `grp` and `oth` are the bits of one kind of permission.
  pub have_perms : Stat → ℕ → ℕ → ℕ → Bool
  unfolding allows
  have_perms sb usr grp oth =
      if sb.owner == uid
      then allows sb.mode usr
      else if sb.group == gid
      then allows sb.mode grp
      else allows sb.mode oth

  -- A readable file that is not left out by its name.
  pub is_searched : Text → Stat → Bool
  unfolding have_perms is_binary allows
  is_searched path sb =
      (bit_and sb.mode 61440 == 32768)
      && (have_perms sb 256 32 4 && (allows sb.mode 73 || not (is_binary path)))

  pub enters : Stat → Bool
  unfolding have_perms
  enters sb = (bit_and sb.mode 61440 == 16384) && (have_perms sb 256 32 4 && have_perms sb 64 8 1)

  -- `contents` is `none` where the file cannot be opened.
  pub process : Text → Text → Option Stat → Option Text → Seen
  unfolding search_file is_searched enters allows
  process needle path none contents = passed false false
  process needle path (some sb) contents =
      if not (is_searched path sb) then passed false (enters sb) else elim contents [
        | none ↦ failed
        | some bytes ↦ elim (search_file needle (allows sb.mode 73) bytes) [
          | some found ↦ passed true (enters sb)
          | some absent ↦ passed false (enters sb)
          | other ↦ failed
        ]
      ]

-- What a process and those that it starts print, and whether it exits with 0.
pub record Report : Type 0 where
  pub printed : List Text
  pub good : Bool

unfoldable pub silent : Bool → Report
silent good = record { printed = []; good = good }

unfoldable pub joined : Report → Report → Report
joined a b = record { printed = a.printed ++ b.printed; good = a.good && b.good }

module _ (uid gid : ℕ) (needle : Text) (lstat : Text → Option Stat) (contents : Text → Option Text)
    (opendir : Text → Option Dir) where
  abbrev pub seen : Text → Seen
  unfolding process
  seen path = process uid gid needle path (lstat path) (contents path)

  -- The loop over the names of a directory; `below` is the process for a directory within it, which
  -- is started if `deep`.
  pub walk_entries : Bool → (Text → Report) → Text → List Text → Bool → Report
  unfolding process is_dots ss_push ss_pop silent joined
  walk_entries deep below curpath [] ends = silent ends
  walk_entries deep below curpath (name ∷ names) ends =
      if is_dots name
      then walk_entries deep below curpath names ends
      else elim (seen (ss_push curpath name)) [
        | failed ↦ silent false
        | passed prints recurse ↦
            let path = ss_push curpath name in
            let own : Report = record { printed = if prints then path ∷ [] else []; good = true } in
            let child = if recurse && deep then below path else silent true in
            let rest : Report = elim (ss_pop path) [
              | none ↦ silent false
              | some curpath' ↦ walk_entries deep below curpath' names ends
            ] in
            joined own (joined child rest)
      ]

  pub walk_dir : Bool → (Text → Report) → Text → Report
  unfolding walk_entries silent
  walk_dir deep below curpath = elim (opendir curpath) [
    | none ↦ silent false
    | some (names, ends) ↦ walk_entries deep below curpath names ends
  ]

  unfoldable pub walk : ℕ → Text → Report
  unfolding walk_dir silent
  walk zero curpath = walk_dir false (λ path. silent true) curpath
  walk (suc depth) curpath = walk_dir (ltb 1 (suc depth)) (walk depth) curpath
