-- ===== src/Shell/Buffer.antt =====
-- The vector `vec_t` and the string `struct sizedstr` of lab5/zad1/main.c. A block of memory is the
-- list of its cells, a null pointer `none`; `none` as a result is the end of the process, by a failed
-- assertion or by `exit`, or an access beyond the end of a block. `alloc` says, for a number of bytes,
-- whether an allocation succeeds.
pub mod NextSize
pub mod Push
use Prim.Native.Nat.{bit_and}
use sys_opy.Common.{
  ℕ, zero, suc, ◌+◌, ◌-◌, ◌*◌, ◌/◌, ◌%◌, ◌^◌, Bool, true, ◌||◌, not, if◌then◌else◌, ltb, leb, ◌==◌,
  ◌>>=◌, Option, none, some, List, [], ◌∷◌, ◌++◌, replicate, take, length, set,
}

-- The loop of `next_size`, which clears the lowest bit until one is left.
pub highest_bit : ℕ → ℕ → ℕ
highest_bit zero x = x
highest_bit (suc fuel) x =
    let rest = highest_bit fuel (bit_and x (x - 1)) in if bit_and x (x - 1) == 0 then x else rest

-- `size_t` has 64 bits, so that the loop has at most 64 rounds.
pub next_size : ℕ → ℕ
next_size x = if ltb x 4 then 4 else highest_bit 64 (((2 * x) % 2 ^ 64 + (2 ^ 64 - 1)) % 2 ^ 64)

-- `block` is `data` of the source. A cell that nothing was written to is `none`.
pub record Vec {ℓ} (A : Type ℓ) : Type ℓ where
  pub cap : ℕ
  pub len : ℕ
  pub block : Option (List (Option A))

-- A structure of zeros.
abbrev pub vec_zero {ℓ} : {A : Type ℓ} → Vec A
vec_zero = record { cap = 0; len = 0; block = none }

abbrev pub cells {ℓ} : {A : Type ℓ} → Option (List A) → List A
cells none = []
cells (some xs) = xs

module _ {ℓ} {A : Type ℓ} (alloc : ℕ → Bool) where
  -- A failed allocation ends the process, here or in the caller. `sizeof(void*)` is 8, and the product
  -- is one of `size_t`: the block may have fewer than `newlen` cells.
  pub vec_realloc : Vec A → ℕ → Option (Vec A)
  vec_realloc vec newlen =
      let bytes = (newlen * 8) % 2 ^ 64 in
      if not (ltb vec.cap newlen) || (not (alloc bytes) || ltb bytes (vec.len * 8))
      then none
      else some (record vec {
        block = some (take vec.len (cells vec.block) ++ replicate (bytes / 8 - vec.len) none);
        cap = if vec.len == 0 then vec.cap else newlen;
      })

  pub vec_ensure : Vec A → ℕ → Option (Vec A)
  unfolding vec_realloc next_size
  vec_ensure vec len =
      if ltb vec.cap len
      then (if leb len (next_size len) then vec_realloc vec (next_size len) else none)
      else some vec

  unfoldable pub vec_push : Vec A → A → Option (Vec A)
  unfolding vec_ensure
  vec_push vec elem = do
    v ← vec_ensure vec (vec.len + 1)
    if leb (length (cells v.block)) v.len
        then none
        else some
            (record v { block = some (set (cells v.block) v.len (some elem)); len = v.len + 1 })

-- The elements' own memory is given back too, which the model does not show.
unfoldable pub vec_free {ℓ} : {A : Type ℓ} → Vec A → Option (Vec A)
vec_free vec = elim vec.block [ none ↦ none | some xs ↦ some vec_zero ]

-- `block` (`data` in the source) has a place for a terminating 0 behind the capacity.
pub record Str : Type 0 where
  pub cap : ℕ
  pub len : ℕ
  pub block : Option (List ℕ)

abbrev pub str_zero : Str
str_zero = record { cap = 0; len = 0; block = none }

-- The characters of a C string: those before the first 0.
unfoldable pub c_string : List ℕ → List ℕ
c_string [] = []
c_string (zero ∷ cs) = []
c_string (suc c ∷ cs) = suc c ∷ c_string cs

-- `memcpy` to an offset of a block.
pub write_at : List ℕ → ℕ → List ℕ → List ℕ
write_at mem at [] = mem
write_at mem at (c ∷ cs) = write_at (set mem at c) (at + 1) cs

module _ (alloc : ℕ → Bool) where
  pub ss_alloc : ℕ → Str
  ss_alloc len = record {
    cap = len;
    len = 0;
    block = if alloc (len + 1) then some (replicate (len + 1) 0) else none;
  }

  pub ss_realloc : Str → ℕ → Option Str
  unfolding write_at c_string
  ss_realloc ss newlen =
      if not (ltb ss.cap newlen)
      then none
      else if not (alloc (newlen + 1))
      then some (record ss { block = none })
      else elim ss.block [
        | none ↦ some (record ss { block = some (replicate (newlen + 1) 0) })
        | some old ↦ some (record ss {
          block = some (write_at (replicate (newlen + 1) 0) 0 (c_string old));
          cap = newlen;
        })
      ]

  pub ss_free : Str → Option Str
  ss_free ss = elim ss.block [ none ↦ none | some xs ↦ some str_zero ]

  -- The last flag is `realloc`.
  pub ss_ensure : Str → ℕ → Bool → Option Str
  unfolding ss_realloc ss_alloc next_size
  ss_ensure ss len realloc =
      if not (ltb ss.cap len) then some ss else if not (leb len (next_size len)) then none else do
        grown ← if realloc then ss_realloc ss (next_size len) else some (ss_alloc (next_size len))
        elim grown.block [ none ↦ none | some xs ↦ some grown ]

  -- A push of nothing to a string without memory writes through a null pointer.
  unfoldable pub ss_push : Str → List ℕ → Option Str
  unfolding ss_ensure write_at
  ss_push ss s = do
    grown ← ss_ensure ss (ss.len + length s) true
    elim grown.block [
      | none ↦ none
      | some xs ↦ some (record grown {
        len = grown.len + length s;
        block = some (set (write_at xs grown.len s) (grown.len + length s) 0);
      })
    ]

-- The string itself, and the structure that is left.
unfoldable pub ss_take : Str → Option (List ℕ) × Str
ss_take ss = (ss.block, str_zero)
