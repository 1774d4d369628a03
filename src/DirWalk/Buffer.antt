-- ===== src/DirWalk/Buffer.antt =====
-- The growing buffer of the path of lab2/zad3/main.c. A block of memory is the list of its cells, a
-- null pointer `none`; `none` as a result is the end of the process, by a failed assertion or by
-- `exit`, or a use of a null pointer. `alloc` says which allocations succeed.
pub mod Sizes
pub mod Growth
use sys_opy.Common.{
  ℕ, zero, suc, ◌+◌, ◌-◌, ◌*◌, ◌%◌, ◌^◌, Bool, true, false, ◌||◌, not, if◌then◌else◌, ltb, leb,
  ◌==◌, ◌>>=◌, Option, none, some, List, [], ◌∷◌, ◌++◌, replicate, take, drop, length, set,
}
use sys_opy.Shell.Buffer.{highest_bit}
use sys_opy.DirWalk.{Text, ss_pop}

-- The loop is that of lab5/zad1/main.c; `none` is the failed assertion.
pub next_size : ℕ → Option ℕ
next_size x =
    let y = (x + 1) % 2 ^ 64 in
    if y == 0
    then none
    else if ltb y 7
    then some 7
    else some ((2 * highest_bit 64 y % 2 ^ 64 + (2 ^ 64 - 1)) % 2 ^ 64)

-- `block` is `data` of the source.
pub record SizedStr : Type 0 where
  pub cap : ℕ
  pub len : ℕ
  pub block : Option (List ℕ)

-- The characters of a C string: those before the first 0.
pub c_string : List ℕ → Text
c_string [] = []
c_string (zero ∷ cs) = []
c_string (suc c ∷ cs) = suc c ∷ c_string cs

-- `strcpy` to an offset of a block.
pub put : List ℕ → ℕ → Text → List ℕ
put mem at s = take at mem ++ (s ++ 0 ∷ drop (at + length s + 1) mem)

module _ (alloc : ℕ → Bool) where
  pub ss_alloc : ℕ → SizedStr
  ss_alloc len = record {
    cap = len;
    len = 0;
    block = if alloc (len + 1) then some (replicate (len + 1) 0) else none;
  }

  pub ss_realloc : SizedStr → ℕ → Option SizedStr
  unfolding c_string put
  ss_realloc ss newlen =
      if not (ltb ss.cap newlen)
      then none
      else if not (alloc (newlen + 1))
      then some (record ss { block = none })
      else elim ss.block [
        | none ↦ none
        | some old ↦ some (record ss {
          cap = newlen;
          block = some (put (replicate (newlen + 1) 0) 0 (c_string old));
        })
      ]

  -- The last flag is `realloc`.
  pub ss_ensure : SizedStr → ℕ → Bool → Option SizedStr
  unfolding ss_realloc ss_alloc next_size
  ss_ensure ss len realloc = if not (ltb ss.cap len) then some ss else do
    wanted ← next_size (len - 1)
    grown ←
        if not (leb len wanted)
        then none
        else if realloc
        then ss_realloc ss wanted
        else some (ss_alloc wanted)
    elim grown.block [ none ↦ none | some xs ↦ some grown ]

  pub ss_assign : SizedStr → Text → Option SizedStr
  unfolding ss_ensure put
  ss_assign ss s = do
    grown ← ss_ensure ss (length s) false
    elim grown.block [
      | none ↦ none
      | some xs ↦ some (record grown { len = length s; block = some (put xs 0 s) })
    ]

  pub push_name : SizedStr → Text → Option SizedStr
  unfolding ss_ensure put
  push_name ss name = do
    grown ← ss_ensure ss (ss.len + length name + 1) true
    elim grown.block [
      | none ↦ none
      | some xs ↦ some (record grown {
        len = grown.len + 1 + length name;
        block = some (put xs grown.len (b'/' ∷ name));
      })
    ]

-- `none` where the string has no memory; a string without a slash stays as it is.
pub pop_name : SizedStr → Option SizedStr
unfolding c_string ss_pop
pop_name ss = elim ss.block [
  | none ↦ none
  | some xs ↦ elim (ss_pop (c_string xs)) [
    | none ↦ some ss
    | some head ↦ some (record ss { len = length head; block = some (set xs (length head) 0) })
  ]
]
