-- ===== src/WordCount.antt =====
-- lab1/zad1/libwc.c: a library that runs `wc` and keeps its results in a growing table. A `char` is
-- its code, a string the list of its codes; `none` in the table is a null pointer.
pub mod Names
pub mod Escape
pub mod Results
pub mod Deletion
pub mod Commands
mod Tests
use sys_opy.Common.{
  ℕ, zero, suc, ◌+◌, ◌-◌, ◌*◌, ◌%◌, ◌^◌, Bool, true, false, ◌&&◌, ◌||◌, not, if◌then◌else◌, ltb,
  leb, ◌==◌, Option, none, some, List, [], ◌∷◌, ◌++◌, get_or, set, replicate, length, take,
}
use sys_opy.Common.Int.{ℤ, pos, negsuc, int32}

abbrev pub Text : Type 0
Text = List ℕ

-- `struct libwc_context`. `results` is the array `data`, of `cap` pointers.
pub record Context : Type 0 where
  pub tmpfile : Text
  pub len : ℕ
  pub cap : ℕ
  pub results : List (Option Text)

-- What the C library and the file system answer to the calls of one `libwc_load_result`.
-- `calloc n size` says whether the allocation succeeds; `opens` is the file's content.
pub record Env : Type 0 where
  pub calloc : ℕ → ℕ → Bool
  pub opens : Option Text
  pub seek_end_fails : Bool
  pub tell_fails : Bool
  pub seek_set_fails : Bool
  pub read : ℕ
  pub close_fails : Bool

-- The size that the table grows to; the product is one of `size_t`.
pub grown_size : ℕ → ℕ
grown_size cap = let doubled = (2 * cap) % 2 ^ 64 in if doubled == 0 then 4 else doubled

-- Whether there is room for one more pointer afterwards, and the context. `sizeof(char*)` is 8.
pub ensure_space : Env → Context → Bool × Context
ensure_space env ctx =
    if ltb ctx.len ctx.cap
    then (true, ctx)
    else let new_size = grown_size ctx.cap in
      if env.calloc new_size 8
      then (
        true,
        record ctx {
          cap = new_size;
          results = take ctx.len ctx.results ++ replicate (new_size - ctx.len) none;
        },
      )
      else (false, ctx)

-- "/tmp/libwc.txt"
abbrev pub default_tmpfile : Text
default_tmpfile =
    b'/' ∷ b't' ∷ b'm' ∷ b'p' ∷ b'/' ∷ b'l' ∷ b'i' ∷ b'b' ∷ b'w' ∷ b'c' ∷ b'.' ∷ b't' ∷ b'x' ∷ b't'
    ∷ []

-- The flag says whether the allocation of the context succeeds; `none` is a null pointer.
pub libwc_create : Bool → Option Context
libwc_create allocated =
    if allocated
    then some (record { tmpfile = default_tmpfile; len = 0; cap = 0; results = [] })
    else none

-- `none` outside is a failed assertion, `none` inside a null pointer. The last statement of the
-- function returns a null pointer.
pub libwc_create_custom : Bool → Text → Option (Option Context)
libwc_create_custom allocated [] = none
libwc_create_custom allocated (c ∷ cs) = if c == b' ' then none else some none

-- The part of `libwc_load_result` behind the opened file: `idx` on.
pub store_file : Env → Text → Context → Option (ℤ × Context)
store_file env file ctx = elim (get_or ctx.results ctx.len none) [
  | some old ↦ none
  | none ↦
      if env.calloc 1 (length file + 1)
      then if (env.read == length file) && not env.close_fails
        then some (
          int32 ctx.len,
          record ctx { len = ctx.len + 1; results = set ctx.results ctx.len (some file) },
        )
        else none
      else some (negsuc 0, ctx)
]

-- `none` is a failed assertion. The value is the handle or -1.
pub libwc_load_result : Env → Context → Option (ℤ × Context)
unfolding ensure_space store_file
libwc_load_result env ctx₀ =
    let (room, ctx) = ensure_space env ctx₀ in
    let failure = some (negsuc 0, ctx) in
    if not room then failure else elim env.opens [
      | none ↦ failure
      | some file ↦
          if env.seek_end_fails || (env.tell_fails || env.seek_set_fails)
          then failure
          else store_file env file ctx
    ]

pub libwc_del_result : Context → ℤ → Bool × Context
libwc_del_result ctx (negsuc n) = (false, ctx)
libwc_del_result ctx (pos h) =
    if leb ctx.len h then (false, ctx) else elim (get_or ctx.results h none) [
      | none ↦ (false, ctx)
      | some text ↦ (true, record ctx { results = set ctx.results h none })
    ]

-- `none` outside is a failed assertion, `none` inside a null pointer.
pub libwc_get_result : Context → ℤ → Option (Option Text)
libwc_get_result ctx (negsuc n) = none
libwc_get_result ctx (pos h) = if ltb h ctx.len then some (get_or ctx.results h none) else none

-- Characters that need no backslash in an argument of a shell command.
pub is_arg_safe : ℕ → Bool
is_arg_safe c =
    (leb b'-' c && leb c b':')
    || (leb b'@' c && leb c b'Z')
    || (leb b'a' c && leb c b'z')
    || (c == b'_')
    || (c == b'~')
    || (c == b'@')
    || (c == b'+')

-- The loop over `ctx->tmpfile`.
pub escape_tmpfile : Text → Text
unfolding is_arg_safe
escape_tmpfile [] = []
escape_tmpfile (c ∷ cs) = (if is_arg_safe c then [] else b'\\' ∷ []) ++ c ∷ escape_tmpfile cs

-- The loop over `filepaths`; the flag is `start`.
pub escape_paths : Bool → Text → Text
unfolding is_arg_safe
escape_paths start [] = []
escape_paths start (c ∷ cs) =
    (if start && (c == b'-') then b'.' ∷ b'/' ∷ [] else [])
    ++ ((if not (is_arg_safe c) && not (c == b' ') then b'\\' ∷ [] else [])
        ++ c ∷ escape_paths (c == b' ') cs)

-- The command that `libwc_stats_to_tmpfile` hands to `system`.
pub stats_command : Context → Text → Text
unfolding escape_tmpfile escape_paths
stats_command ctx filepaths =
    b'w' ∷ b'c' ∷ b' ' ∷ b'>' ∷ (escape_tmpfile ctx.tmpfile ++ b' ' ∷ escape_paths true filepaths)

-- Whether the assertion on `system` holds, `system` being the status it answers for a command. The
-- allocation of `sysbuf` is taken to succeed.
unfoldable pub libwc_stats_to_tmpfile : (Text → ℤ) → Context → Text → Bool
unfolding stats_command
libwc_stats_to_tmpfile system ctx filepaths = elim (system (stats_command ctx filepaths)) [
  | pos zero ↦ true
  | other ↦ false
]

-- The bytes allocated for `sysbuf`.
pub sysbuf_size : Context → Text → ℕ
sysbuf_size ctx filepaths = 2 * (length filepaths + 1) + 2 * length ctx.tmpfile + 6
