-- ===== src/WordCount/Tests.antt =====
-- A table and some names for lab1/zad1/libwc.c, and a command line for lab1/zad2/main.c.
use sys_opy.Common.{
  zero, suc, get_or, ℕ, ◌+◌, ◌*◌, ◌^◌, ◌≤◌, ◌≡◌, ◌≢◌, refl, ap, arith, true, false, ltb, ltb→lt,
  none, some, List, [], ◌∷◌, length,
}
use sys_opy.Common.Int.{ℤ, pos}
use sys_opy.WordCount.{
  Text, Context, Env, libwc_load_result, stats_command, sysbuf_size, escape_paths,
}
use sys_opy.WordCount.Results.{IsValid, Sane, Loaded, libwc_load_result_lem}
use sys_opy.Common.Words.{NoNewline, shell_words}
use sys_opy.WordCount.Names.{names, NoTilde}
use sys_opy.WordCount.Escape.{stats_command_fits, shell_words-escape_paths}
use sys_opy.WordCount.Commands.{commands_main, unfinished, commands_main_finishes}

-- A table without results, and one that holds a result at handle 0.
abbrev empty : Context
empty = record { tmpfile = b'/' ∷ b't' ∷ []; len = 0; cap = 0; results = [] }

abbrev single : Context
single = record { tmpfile = b'/' ∷ b't' ∷ []; len = 1; cap = 1; results = some (b'7' ∷ []) ∷ [] }

empty-IsValid : IsValid empty
empty-IsValid = record {
  width = refl;
  within = omega arith;
  bytes = omega arith;
  unused = λ i h. refl;
}

single_unused : (i : ℕ) → 1 ≤ i → get_or single.results i none ≡ none
single_unused zero h = absurd (omega arith)
single_unused (suc i) h = refl

single-IsValid : IsValid single
single-IsValid = record {
  width = refl;
  within = omega arith;
  bytes = omega arith;
  unused = single_unused;
}

-- Every allocation of fewer than 2 ^ 64 bytes succeeds, and the file holds "12".
abbrev env : Env
env = record {
  calloc = λ n size. ltb (n * size) (2 ^ 64);
  opens = some (b'1' ∷ b'2' ∷ []);
  seek_end_fails = false;
  tell_fails = false;
  seek_set_fails = false;
  read = 2;
  close_fails = false;
}

env-Sane : Sane env
unfolding Sane
env-Sane n size h = ltb→lt (n * size) (2 ^ 64) h

env_whole : (file : Text) → some (b'1' ∷ b'2' ∷ []) ≡ some file → 2 ≡ length file
env_whole file e = ap (λ o. elim o [ none ↦ 0 | some t ↦ length t ]) e

libwc_load_result_lem_example :
    (result : ℤ) × (ctx' : Context) × (libwc_load_result env empty ≡ some (result, ctx'))
    × Loaded env empty result ctx'
libwc_load_result_lem_example =
    libwc_load_result_lem env empty env-Sane empty-IsValid (omega arith) env_whole refl

-- "-a b"
abbrev files : Text
files = b'-' ∷ b'a' ∷ b' ' ∷ b'b' ∷ []

files-NoNewline : NoNewline files
unfolding NoNewline
files-NoNewline =
    ((λ e. omega arith), ((λ e. omega arith), ((λ e. omega arith), ((λ e. omega arith), tt))))

stats_command_fits_example : length (stats_command empty files) + 1 ≤ sysbuf_size empty files
stats_command_fits_example = stats_command_fits empty files

files-NoTilde : NoTilde true files
unfolding NoTilde
files-NoTilde = (refl, (refl, (refl, (refl, tt))))

shell_words-escape_paths_example : shell_words (escape_paths true files) ≡ some (names files)
shell_words-escape_paths_example = shell_words-escape_paths files files-NoNewline files-NoTilde

-- `count x del 0`
abbrev command_line : List Text
command_line =
    (b'c' ∷ b'o' ∷ b'u' ∷ b'n' ∷ b't' ∷ [])
    ∷ (b'x' ∷ [])
    ∷ (b'd' ∷ b'e' ∷ b'l' ∷ [])
    ∷ (b'0' ∷ [])
    ∷ []

commands_main_finishes_example :
    commands_main (λ n t. pos 0) (λ n. env) (λ t. pos 0) command_line ≢ unfinished
commands_main_finishes_example =
    commands_main_finishes (λ n t. pos 0) (λ n. env) (λ t. pos 0) command_line
