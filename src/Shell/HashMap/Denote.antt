-- ===== src/Shell/HashMap/Denote.antt =====
-- The hash table of lab5/zad1/main.c as a map from keys to values.
use sys_opy.Common.{
  ℕ, suc, ◌+◌, ◌*◌, ◌^◌, ◌≤◌, ◌<◌, ◌≡◌, refl, sym, ap, ◌∙◌, Bool, true, if◌then◌else◌, ◌==◌, str_eq,
  Option, none, some, [], length, set, arith, inl, inr, ◌⊎◌,
}
use mathlib.Core.Option.{some-injective}
use sys_opy.Shell.HashMap.{
  Key, HashMap, empty_cell, map_zero, get_cell, resize_if_needed, hash_store, hash_add, hash_get,
}
use sys_opy.Shell.HashMap.Probe.{cell_at, Fits}
use sys_opy.Shell.HashMap.Assoc.{assoc, assoc_nil, assoc-set, filled, Only}
use sys_opy.Shell.HashMap.Cells.{occupied, occupied_nil, occupied-set, weight-none, weight-some}
use sys_opy.Shell.HashMap.Search.{IsTable, find, get_cell-find}
use sys_opy.Shell.HashMap.Write.{IsTable-write}
use sys_opy.Shell.HashMap.Rehash.{find-assoc}
use sys_opy.Shell.HashMap.Resize.{IsOpen, resize, resize_full}

module _ {ℓ} {V : Type ℓ} where
  -- The map that a table stands for.
  pub denote : HashMap V → Key → Option V
  denote m q = assoc q m.table

  -- A map with a table that is less than four fifths full.
  abbrev pub InUse : HashMap V → Type ℓ
  InUse m = (c : ℕ) × IsOpen c m × (m.elems * 5 < m.size * 4)

  -- A map as the program keeps it.
  abbrev pub IsMap : HashMap V → Type ℓ
  IsMap m = (m ≡ map_zero) ⊎ InUse m

  abbrev Stored : HashMap V → Key → V → HashMap V → Type ℓ
  Stored m k v m' =
      InUse m'
      × (m'.elems ≤ suc m.elems)
      × ((q : Key) → denote m' q ≡ (if str_eq q k then some v else denote m q))

  store_new :
      (alloc : ℕ → Bool) (m : HashMap V) (i : ℕ) (k : Key) (v : V)
      → cell_at m.table i ≡ empty_cell
      → alloc (length k + 1) ≡ true
      → hash_store alloc m i k v
        ≡ resize_if_needed alloc
            (record m { table = set m.table i (filled k v); elems = m.elems + 1 })
  unfolding hash_store
  store_new alloc m i k v e ok = rw (e, e, ok, hash_store) refl

  store_old :
      (alloc : ℕ → Bool) (m : HashMap V) (i : ℕ) (k k' : Key) (v old : V)
      → cell_at m.table i ≡ filled k' old
      → hash_store alloc m i k v ≡ some (record m { table = set m.table i (filled k' v) })
  unfolding hash_store
  store_old alloc m i k k' v old e = rw (e, e, hash_store) refl

  module _ (alloc : ℕ → Bool) (ok : (n : ℕ) → alloc n ≡ true) (c : ℕ) (m : HashMap V)
      (o : IsOpen c m) (loaded : m.elems * 5 < m.size * 4) (few : m.elems + 1 < 2 ^ 58) (k : Key)
      (v : V) (j : ℕ) (lt : j < length m.table) (e : find m.table (2 ^ c) k ≡ some j)
      (only : Only k m.table j) (fits : Fits k (cell_at m.table j)) where
    abbrev StoreRun : Type ℓ
    StoreRun = (m' : HashMap V) × (hash_store alloc m j k v ≡ some m') × Stored m k v m'

    written : IsTable c (set m.table j (filled k v))
    written = IsTable-write c m.table o.is_table k v j lt e only

    denote-written :
        (q : Key)
        → assoc q (set m.table j (filled k v)) ≡ (if str_eq q k then some v else denote m q)
    unfolding denote
    denote-written q = assoc-set k v q m.table j lt only fits

    run_new : cell_at m.table j ≡ empty_cell → StoreRun
    unfolding denote
    run_new vacant =
        let next : HashMap V = record m {
          table = set m.table j (filled k v);
          elems = m.elems + 1;
        } in
        let count : occupied next.table ≡ m.elems + 1 = omega (
          arith,
          occupied-set m.table j k v lt,
          weight-none (cell_at m.table j).key (ap (λ r. r.key) vacant),
          o.counted,
        ) in
        let o' : IsOpen c next = record {
          is_table = written;
          sized = o.sized;
          small = o.small;
          counted = count;
          clear = o.clear;
        } in
        let (c', m', run, kept, same, load, get) = resize alloc ok next few count o.clear c o' in
        (
          m',
          store_new alloc m j k v vacant (ok (length k + 1)) ∙ run,
          ((c', kept, load), omega (arith, same), λ q. get q ∙ denote-written q),
        )

    run_old : (old : V) → cell_at m.table j ≡ filled k old → StoreRun
    unfolding denote
    run_old old at =
        let next : HashMap V = record m { table = set m.table j (filled k v) } in
        let count : occupied next.table ≡ m.elems = omega (
          arith,
          occupied-set m.table j k v lt,
          weight-some (cell_at m.table j).key k (ap (λ r. r.key) at),
          o.counted,
        ) in
        let o' : IsOpen c next = record {
          is_table = written;
          sized = o.sized;
          small = o.small;
          counted = count;
          clear = o.clear;
        } in
        (next, store_old alloc m j k k v old at, ((c, o', loaded), omega arith, denote-written))

    run_store : StoreRun
    run_store = elim (o.is_table.whole j) [
      | inl vacant ↦ run_new vacant
      | inr (k', old, at) ↦ elim fits [
        | inl none_here ↦ absurd (cc (none_here, ap (λ r. r.key) at))
        | inr here ↦
            let same : k' ≡ k = some-injective k' k (sym (ap (λ r. r.key) at) ∙ here) in
            run_old old (at ∙ ap (λ x. filled x old) same)
      ]
    ]

  -- What the search of a map in use gives.
  place_in_use :
      (c : ℕ) (m : HashMap V)
      → IsOpen c m
      → m.elems * 5 < m.size * 4
      → (k : Key)
      → (j : ℕ) × (find m.table (2 ^ c) k ≡ some j)
        × (j < length m.table)
        × Fits k (cell_at m.table j)
        × Only k m.table j
        × (assoc k m.table ≡ (cell_at m.table j).val)
  place_in_use c m o loaded k =
      let free : occupied m.table < 2 ^ c = omega (arith, o.counted, o.sized, loaded) in
      find-assoc c m.table o.is_table free k

  get_cell-place :
      (c : ℕ) (m : HashMap V)
      → IsOpen c m
      → (k : Key) (j : ℕ) → find m.table (2 ^ c) k ≡ some j
      → get_cell m.table m.size k ≡ some j
  get_cell-place c m o k j e =
      ap (λ n. get_cell m.table n k) o.sized ∙ get_cell-find m.table c k ∙ e

  hash_add-steps :
      (alloc : ℕ → Bool) (m₀ m m' : HashMap V) (k : Key) (v : V) (j : ℕ)
      → (if m₀.size == 0 then resize_if_needed alloc m₀ else some m₀) ≡ some m
      → get_cell m.table m.size k ≡ some j
      → hash_store alloc m j k v ≡ some m'
      → hash_add alloc m₀ k v ≡ some m'
  unfolding hash_add
  hash_add-steps alloc m₀ m m' k v j e f g = rw (e, f, g) refl

  abbrev pub Added : (ℕ → Bool) → HashMap V → Key → V → Type ℓ
  Added alloc m k v = (m' : HashMap V) × (hash_add alloc m k v ≡ some m') × Stored m k v m'

  add_in_use :
      (alloc : ℕ → Bool) (m₀ : HashMap V) (k : Key) (v : V)
      → ((n : ℕ) → alloc n ≡ true)
      → (c : ℕ) (m : HashMap V)
      → (if m₀.size == 0 then resize_if_needed alloc m₀ else some m₀) ≡ some m
      → IsOpen c m
      → m.elems * 5 < m.size * 4
      → m.elems + 1 < 2 ^ 58
      → (m' : HashMap V) × (hash_add alloc m₀ k v ≡ some m') × Stored m k v m'
  add_in_use alloc m₀ k v ok c m first o loaded few =
      let (j, e, lt, fits, only, _) = place_in_use c m o loaded k in
      let (m', run, stored) = run_store alloc ok c m o loaded few k v j lt e only fits in
      (m', hash_add-steps alloc m₀ m m' k v j first (get_cell-place c m o k j e) run, stored)

  first_table :
      (alloc : ℕ → Bool)
      → ((n : ℕ) → alloc n ≡ true)
      → (c : ℕ) × (m : HashMap V) × (resize_if_needed alloc map_zero ≡ some m)
        × IsOpen c m
        × (m.elems ≡ 0)
        × (m.elems * 5 < m.size * 4)
        × ((q : Key) → assoc q m.table ≡ none)
  first_table alloc ok =
      let (c, m, run, kept, same, load, get) =
        resize_full alloc ok map_zero (omega arith) (occupied_nil [] refl) refl (λ j. inl refl)
          (λ i j k a b. absurd (cc a)) refl refl in
      (c, m, run, kept, same, load, λ q. get q ∙ assoc_nil q)

  add_first :
      (alloc : ℕ → Bool) (k : Key) (v : V) → ((n : ℕ) → alloc n ≡ true) → Added alloc map_zero k v
  unfolding denote
  add_first alloc k v ok =
      let (c, m, run, kept, same, load, nothing) = first_table alloc ok in
      let (m', add, (used, le, get)) =
        add_in_use alloc map_zero k v ok c m run kept load (omega (arith, same)) in
      (
        m',
        add,
        (
          used,
          omega (arith, le, same),
          λ q. get q ∙ ap (λ o. if str_eq q k then some v else o) (nothing q ∙ sym (assoc_nil q)),
        ),
      )

  -- When every allocation succeeds, adding a key to a map of fewer than 2 ^ 58 - 1 keys, empty or in
  -- use, gives a map in use that has the value under that key and every other key as before; this
  -- includes the growth of the table.
  pub hash_add-denote :
      (alloc : ℕ → Bool) (m : HashMap V) (k : Key) (v : V)
      → ((n : ℕ) → alloc n ≡ true)
      → IsMap m
      → m.elems + 1 < 2 ^ 58
      → Added alloc m k v
  unfolding denote
  hash_add-denote alloc m k v ok (inr (c, o, loaded)) few =
      add_in_use alloc m k v ok c m (ground (arith, loaded)) o loaded few
  hash_add-denote alloc m k v ok (inl e) few = rw e (add_first alloc k v ok)

  -- A search of a map in use ends, and gives the value that the map has under the key, or a null
  -- pointer for a key that it does not have.
  pub hash_get-denote : (m : HashMap V) (q : Key) → InUse m → hash_get m q ≡ some (denote m q)
  unfolding hash_get denote
  hash_get-denote m q (c, o, loaded) =
      let (j, e, lt, fits, only, at) = place_in_use c m o loaded q in
      rw (get_cell-place c m o q j e) (ap some (sym at))
