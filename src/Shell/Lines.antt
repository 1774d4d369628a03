-- ===== src/Shell/Lines.antt =====
-- What the parser of lab5/zad1/main.c does at the end of a word: a definition, a pipeline, an error.
use sys_opy.Common.{
  ℕ, zero, suc, ◌+◌, ◌-◌, ◌%◌, ◌^◌, Bool, true, false, ◌&&◌, not, if◌then◌else◌, ◌>>=◌, Option,
  none, some, List, [], ◌∷◌, ◌++◌, get_or,
}
use sys_opy.Shell.Buffer.{Vec, vec_zero, vec_free}
use sys_opy.Shell.HashMap.{Key, hash_add, hash_get}
use sys_opy.Shell.Pipeline.{run_pipeline}
use sys_opy.Shell.Parser.{
  SmState, s_invalid, s_def_before_word, s_exp_before_word, s_any_before_word, is_def, is_exp,
  SmData, Cursor, Round, returns, aborted, onward, memchr,
}

-- An element of a vector, if it was written to.
pub element {ℓ} : {A : Type ℓ} → Vec A → ℕ → Option A
element vec i = do block ← vec.block; get_or block i none

-- The elements before `len`.
pub elements {ℓ} : {A : Type ℓ} → ℕ → List (Option A) → List A
elements zero xs = []
elements (suc n) [] = []
elements (suc n) (none ∷ xs) = elements n xs
elements (suc n) (some x ∷ xs) = x ∷ elements n xs

abbrev pub vec_elements {ℓ} : {A : Type ℓ} → Vec A → List A
vec_elements vec = elim vec.block [ none ↦ [] | some xs ↦ elements vec.len xs ]

-- Whether the last name of an expression is defined.
pub last_defined : SmData → Option Bool
unfolding element hash_get
last_defined ctx = do
  name ← element ctx.cur_expr (ctx.cur_expr.len - 1)
  found ← hash_get ctx.definitions name
  some (elim found [ none ↦ false | some v ↦ true ])

-- The definitions that an expression names.
pub fetch : SmData → List Key → Option (List (List Key))
unfolding hash_get elements
fetch ctx [] = some []
fetch ctx (name ∷ names) = do
  found ← hash_get ctx.definitions name
  elem ← found
  rest ← fetch ctx names
  some (vec_elements elem ∷ rest)

-- An expression at the end of its line is run, after a check of its last name.
pub run_expression : SmData → Option (Bool × SmData)
unfolding last_defined fetch elements vec_free run_pipeline
run_expression ctx = do
  known ← last_defined ctx
  if not known then some (false, ctx) else do
    elems ← fetch ctx (vec_elements ctx.cur_expr)
    freed ← vec_free ctx.cur_expr
    some (true, record ctx { cur_expr = vec_zero; ran = ctx.ran ++ run_pipeline elems ∷ [] })

-- A definition at the end of its line: the key is the first name.
pub add_definition : (ℕ → Bool) → SmData → Option SmData
unfolding element hash_add
add_definition alloc ctx = do
  key ← element ctx.cur_expr 0
  defs ← hash_add alloc ctx.definitions key ctx.cur_expr
  some (record ctx { definitions = defs; cur_expr = vec_zero })

-- The cases of the last `switch`, with `begin` behind the character.
unfoldable pub at_newline : (ℕ → Bool) → List ℕ → SmData → SmState → Cursor → Round
unfolding memchr run_expression add_definition
at_newline alloc buf ctx s cur =
    let result =
      if is_exp s
      then run_expression ctx
      else do added ← add_definition alloc ctx; some (true, added)
    in elim result [
      | none ↦ aborted
      | some (false, next) ↦ returns next s_invalid
      | some (true, next) ↦
          onward (record next { lineno = (next.lineno + 1) % 2 ^ 64 }) s_any_before_word
            (record cur { nl = memchr buf cur.begin b'\n'; eq = memchr buf cur.begin b'=' })
    ]

unfoldable pub at_pipe : List ℕ → SmData → SmState → Cursor → Round
unfolding memchr last_defined
at_pipe buf ctx s₀ cur =
    let s = if is_def s₀ && is_exp s₀ then s_exp_before_word else s₀ in
    let next = onward ctx s (record cur { pi = memchr buf cur.begin b'|' }) in
    if is_exp s
    then elim (last_defined ctx) [
      | none ↦ aborted
      | some false ↦ returns ctx s_invalid
      | some true ↦ next
    ]
    else next

unfoldable pub at_equals : List ℕ → SmData → SmState → Cursor → Round
unfolding memchr
at_equals buf ctx s_any_before_word cur =
    onward ctx s_def_before_word (record cur { eq = memchr buf cur.begin b'=' })
at_equals buf ctx s_exp_before_word cur = returns ctx s_invalid
at_equals buf ctx _ cur = aborted
