-- ===== src/Shell/HashMap.antt =====
-- The hash table of lab5/zad1/main.c: open addressing over a power of two of cells, with keys that
-- are strings. A result `none` is the end of the process by a failed assertion or by `exit`, or a
-- search that does not end. `alloc` says which allocations succeed.
pub mod Probe
pub mod Assoc
pub mod Cells
pub mod Search
pub mod Write
pub mod Rehash
pub mod Resize
pub mod Denote
use Prim.Native.Nat.{bit_and, bit_or, bit_xor}
use sys_opy.Common.{
  ℕ, zero, suc, ◌+◌, ◌-◌, ◌*◌, ◌/◌, ◌%◌, ◌^◌, Bool, ◌&&◌, ◌||◌, not, if◌then◌else◌, ltb, leb, ◌==◌,
  ◌>>=◌, str_eq, Option, none, some, List, [], ◌∷◌, replicate, take, length, set, get_or,
}

abbrev pub Key : Type 0
Key = List ℕ

-- The three shifts that mix `ret`.
pub mix : ℕ → ℕ
mix r =
    let a = bit_xor r ((r * 2 ^ 13) % 2 ^ 64) in
    let b = bit_xor a (a / 2 ^ 7) in bit_xor b ((b * 2 ^ 17) % 2 ^ 64)

-- `(unsigned)*str`: a `char` is signed.
pub unsigned_char : ℕ → ℕ
unsigned_char c = if ltb c 128 then c else 2 ^ 32 - 256 + c

-- The inner loop. It does not change `i`, so that it ends with the string only.
pub hash_part : ℕ → Key → ℕ
unfolding unsigned_char
hash_part part [] = part
hash_part part (c ∷ cs) = hash_part (bit_xor part (unsigned_char c)) cs

-- The outer loop has one round, or none for the empty string.
pub hashfn : Key → ℕ
unfolding hash_part mix
hashfn [] = mix (mix 0xB5F3EC974D101806)
hashfn (c ∷ cs) =
    mix (mix (mix (bit_xor 0xB5F3EC974D101806 (hash_part 0x5555555555555555 (c ∷ cs)))))

module _ {ℓ} (V : Type ℓ) where
  pub record HashCell : Type ℓ where
    pub key : Option Key
    pub val : Option V

  pub record HashMap : Type ℓ where
    pub table : List HashCell
    pub size : ℕ
    pub elems : ℕ
    pub tombs : ℕ

abbrev pub empty_cell {ℓ} : {V : Type ℓ} → HashCell V
empty_cell = record { key = none; val = none }

abbrev pub map_zero {ℓ} : {V : Type ℓ} → HashMap V
map_zero = record { table = []; size = 0; elems = 0; tombs = 0 }

-- The search from `idx` in steps of `inc`, the place of the cell it ends at.
pub probe {ℓ} : {V : Type ℓ} → ℕ → List (HashCell V) → ℕ → ℕ → ℕ → Key → Option ℕ
probe zero tab mask inc idx key = none
probe (suc fuel) tab mask inc idx key =
    let rest = probe fuel tab mask inc ((idx + inc) % 2 ^ 64) key in
    elim (get_or tab (bit_and idx mask) empty_cell).key [
      | none ↦ some (bit_and idx mask)
      | some k ↦ if str_eq key k then some (bit_and idx mask) else rest
    ]

-- As many rounds as there are cells visit each of them, since `inc` is odd.
pub get_cell {ℓ} : {V : Type ℓ} → List (HashCell V) → ℕ → Key → Option ℕ
unfolding probe hashfn
get_cell tab size key =
    if (size == 0) || not (bit_and size (size - 1) == 0)
    then none
    else let hash = hashfn key in
      let inc = bit_or ((hash / 2 ^ 5 + 2 ^ 64 - hash) % 2 ^ 64) 1 in
      probe size tab (size - 1) inc hash key

-- The doublings of `newsize`, which stop at the end of `uint64_t`.
pub grow : ℕ → ℕ → ℕ → ℕ
grow zero newsize elems = newsize
grow (suc fuel) newsize elems =
    let rest = grow fuel ((2 * newsize) % 2 ^ 64) elems in
    if not ((2 * newsize) % 2 ^ 64 == 0) && leb (newsize / 3) elems then rest else newsize

-- The loop over the old cells. Tombstones, keys without a value, are left behind.
pub rehash {ℓ} :
    {V : Type ℓ} → List (HashCell V) → ℕ → List (HashCell V) → Option (List (HashCell V))
unfolding get_cell
rehash newtab newsize [] = some newtab
rehash newtab newsize (cell ∷ old) = elim cell.val [
  | none ↦ rehash newtab newsize old
  | some v ↦ do
    key ← cell.key
    i ← get_cell newtab newsize key
    rehash (set newtab i (record { key = cell.key; val = some v })) newsize old
]

pub resize_if_needed {ℓ} : {V : Type ℓ} → (ℕ → Bool) → HashMap V → Option (HashMap V)
unfolding grow rehash
resize_if_needed alloc m =
    if ltb (((m.elems + m.tombs) * 5) % 2 ^ 64) ((m.size * 4) % 2 ^ 64)
    then some m
    else let newsize = grow 64 4 m.elems in
      if not (alloc newsize) then none else do
        newtab ← rehash (replicate newsize empty_cell) newsize (take m.size m.table)
        some (record m { table = newtab; size = newsize; tombs = 0 })

-- The memory of the keys and the values is given back, which the model does not show.
pub hash_clear {ℓ} : {V : Type ℓ} → HashMap V → HashMap V
hash_clear m = record m { table = []; size = 0; tombs = 0; elems = 0 }

-- The cell at `i` gets the value: an old key, a tombstone or a new key.
pub hash_store {ℓ} : {V : Type ℓ} → (ℕ → Bool) → HashMap V → ℕ → Key → V → Option (HashMap V)
unfolding resize_if_needed
hash_store alloc m i key val =
    let cell = get_or m.table i empty_cell in
    elim cell.key [
      | some k ↦
          let table = set m.table i (record { key = some k; val = some val }) in
          elim cell.val [
            | none ↦ some (record m { table = table; elems = m.elems + 1; tombs = m.tombs - 1 })
            | some old ↦ some (record m { table = table })
          ]
      | none ↦ elim cell.val [
        | some v ↦ none
        | none ↦
            if not (alloc (length key + 1))
            then none
            else resize_if_needed alloc (record m {
              table = set m.table i (record { key = some key; val = some val });
              elems = m.elems + 1;
            })
      ]
    ]

unfoldable pub hash_add {ℓ} : {V : Type ℓ} → (ℕ → Bool) → HashMap V → Key → V → Option (HashMap V)
unfolding resize_if_needed get_cell hash_store
hash_add alloc m₀ key val = do
  m ← if m₀.size == 0 then resize_if_needed alloc m₀ else some m₀
  i ← get_cell m.table m.size key
  hash_store alloc m i key val

-- `none` inside is a null pointer.
unfoldable pub hash_get {ℓ} : {V : Type ℓ} → HashMap V → Key → Option (Option V)
unfolding get_cell
hash_get m key = do i ← get_cell m.table m.size key; some (get_or m.table i empty_cell).val
