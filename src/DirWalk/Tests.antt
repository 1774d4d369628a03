-- ===== src/DirWalk/Tests.antt =====
-- A walk of lab2/zad3/main.c.
use sys_opy.Common.{
  ℕ, ◌≤◌, ◌≡◌, Bool, true, if◌then◌else◌, Option, some, [], ◌∷◌, str_eq, Bool-cases, inl, inr, sym,
  ap, ◌∙◌, refl, arith,
}
use mathlib.Core.Option.{some-injective}
use sys_opy.DirWalk.{ss_push, Text, Stat, Stats, Dir, process, finished, walk}
use sys_opy.DirWalk.Recursive.{enter_dir}
use sys_opy.DirWalk.Path.{all_clean, no_slash}
use sys_opy.DirWalk.Buffer.{SizedStr, push_name, pop_name}
use sys_opy.DirWalk.Buffer.Growth.{Holds, no_zero, push_name-pop_name}
use sys_opy.DirWalk.Run.{walk-enter_dir}

-- Every path is a directory.
abbrev directory : Text → Option Stat
directory path = some (record { mode = 16877; size = 4096; owner = 0; group = 0 })

abbrev three : Dir
three = ((b'.' ∷ []) ∷ (b'a' ∷ []) ∷ (b'b' ∷ []) ∷ [], true)

abbrev nothing_yet : Stats
nothing_yet = record {
  n_file = 0;
  n_dir = 0;
  n_char = 0;
  n_blk = 0;
  n_fifo = 0;
  n_sym = 0;
  n_sock = 0;
  n_fail = 0;
  total_bytes = 0;
  printed = [];
}

-- Only the directory `/d` has entries, of which one is `.`.
abbrev listing : Text → Option Dir
listing path = if str_eq path (b'/' ∷ b'd' ∷ []) then some three else some ([], true)

listing_clean : (p : Text) (dir : Dir) → listing p ≡ some dir → all_clean dir.0 ≡ true
unfolding all_clean no_slash
listing_clean p dir e = elim (Bool-cases (str_eq p (b'/' ∷ b'd' ∷ []))) [
  | inl t ↦
      let same : some three ≡ some dir =
        sym (ap (λ b. if b then some three else some ([], true)) t) ∙ e in
      ap (λ d. all_clean d.0) (sym (some-injective three dir same))
  | inr f ↦
      let same : some ([], true) ≡ some dir =
        sym (ap (λ b. if b then some three else some ([], true)) f) ∙ e in
      ap (λ d. all_clean d.0) (sym (some-injective ([], true) dir same))
]

abbrev after_top : Stats × Bool
after_top = process 0 0 (b'/' ∷ b'd' ∷ []) (directory (b'/' ∷ b'd' ∷ [])) nothing_yet

walk-enter_dir_example :
    (n : ℕ) × ((fuel : ℕ)
      → n ≤ fuel
      → walk 0 0 directory listing fuel (b'/' ∷ b'd' ∷ []) nothing_yet
        ≡ some (
            if after_top.1
            then enter_dir 0 0 directory listing 256 (b'/' ∷ b'd' ∷ []) after_top.0
            else finished after_top.0))
walk-enter_dir_example =
    walk-enter_dir 0 0 directory listing (b'/' ∷ b'd' ∷ []) nothing_yet listing_clean

-- A buffer for `d` that is full.
abbrev full : SizedStr
full = record { cap = 1; len = 1; block = some (b'd' ∷ 0 ∷ []) }

full-Holds : Holds full (b'd' ∷ [])
unfolding no_zero
full-Holds = record { pad = []; content = refl; size = refl; room = refl; clean = refl }

clean_name : no_zero (b'f' ∷ []) ≡ true
unfolding no_zero
clean_name = refl

plain_name : no_slash (b'f' ∷ []) ≡ true
unfolding no_slash
plain_name = refl

push_name-pop_name_example :
    (ss₁ : SizedStr) × (ss₂ : SizedStr) × (push_name (λ n. true) full (b'f' ∷ []) ≡ some ss₁)
    × Holds ss₁ (ss_push (b'd' ∷ []) (b'f' ∷ []))
    × (pop_name ss₁ ≡ some ss₂)
    × Holds ss₂ (b'd' ∷ [])
push_name-pop_name_example =
    push_name-pop_name (λ n. true) full (b'd' ∷ []) (b'f' ∷ []) (λ n. refl) full-Holds clean_name
      plain_name (omega arith)
