-- ===== src/Shell/HashMap/Resize.antt =====
-- The larger table that lab5/zad1/main.c moves to when a table is four fifths full.
use sys_opy.Common.{
  ℕ, ℕ_discrete, zero, suc, ◌+◌, ◌-◌, ◌*◌, ◌/◌, ◌%◌, ◌^◌, ◌≤◌, ◌<◌, ◌≡◌, refl, sym, ap, ◌∙◌, Bool,
  true, false, ltb, leb, take, none, some, List, replicate, length, length-replicate, take_all,
  arith, inl, inr, Bool-cases,
}
use native.Mathlib.Nat.{mod-eq_of_lt}
use sys_opy.Common.Bits.{pow-pos}
use sys_opy.Shell.HashMap.{Key, HashCell, HashMap, empty_cell, grow, rehash, resize_if_needed}
use sys_opy.Shell.HashMap.Probe.{cell_at}
use sys_opy.Shell.HashMap.Assoc.{assoc, assoc-replicate}
use sys_opy.Shell.HashMap.Cells.{Whole, occupied, occupied-replicate, cell_at-replicate}
use sys_opy.Shell.HashMap.Search.{IsTable}
use sys_opy.Shell.HashMap.Rehash.{Distinct, rehash-Moved, orelse, orelse-none, IsTable-Distinct}

power_le : (n c : ℕ) → n ≤ c → 2 ^ n ≤ 2 ^ c
power_le zero c h = pow-pos c
power_le (suc n) zero h = absurd (omega arith)
power_le (suc n) (suc c) h = omega (arith, power_le n c (omega arith))

small_power : (c n : ℕ) → 2 ^ c < 2 ^ n → c < n
small_power c n lt = elim (ℕ_discrete (n - c) 0) [
  | no ne ↦ omega (arith, ne)
  | yes e ↦ absurd (omega (arith, lt, power_le n c (omega arith)))
]

double : (c : ℕ) → c < 60 → (2 * 2 ^ c) % 2 ^ 64 ≡ 2 ^ suc c
double c lt =
    let power : 2 ^ suc c ≡ 2 * 2 ^ c = omega arith in
    ap (λ t. t % 2 ^ 64) (sym power)
    ∙ mod-eq_of_lt (omega (arith, power_le (suc c) 60 (omega arith)))

-- The doublings end at a power of two with room for the keys.
pub grow-power :
    (fuel c elems : ℕ)
    → elems < 2 ^ 58
    → c ≤ 61
    → 62 ≤ fuel + c
    → (d : ℕ) × (grow fuel (2 ^ c) elems ≡ 2 ^ d) × (c ≤ d) × (d ≤ 61) × (elems * 3 < 2 ^ d)
unfolding grow
grow-power zero c elems few small enough = absurd (omega arith)
grow-power (suc fuel) c elems few small enough = elim (Bool-cases (leb (2 ^ c / 3) elems)) [
  | inr e ↦ (c, ground (arith, e), omega arith, small, ground (arith, e))
  | inl e ↦
      let third : 2 ^ c / 3 ≤ elems = ground (arith, e) in
      let less : c < 60 = small_power c 60 (omega arith) in
      let next = double c less in
      let (d, run, ge, le, room) = grow-power fuel (suc c) elems few (omega arith) (omega arith) in
      (d, ground (arith, e, next, run, pow-pos (suc c)), omega arith, le, room)
]

module _ {ℓ} {V : Type ℓ} where
  -- A map with a table, in which the counts are right.
  pub record IsOpen (c : ℕ) (m : HashMap V) : Type ℓ where
    pub is_table : IsTable c m.table
    pub sized : m.size ≡ 2 ^ c
    pub small : c ≤ 61
    pub counted : occupied m.table ≡ m.elems
    pub clear : m.tombs ≡ 0

  resized :
      (alloc : ℕ → Bool) (m : HashMap V) (n : ℕ) (tab : List (HashCell V))
      → ltb (((m.elems + m.tombs) * 5) % 2 ^ 64) ((m.size * 4) % 2 ^ 64) ≡ false
      → grow 64 4 m.elems ≡ n
      → alloc n ≡ true
      → rehash (replicate n empty_cell) n (take m.size m.table) ≡ some tab
      → resize_if_needed alloc m ≡ some (record m { table = tab; size = n; tombs = 0 })
  unfolding resize_if_needed
  resized alloc m n tab full size ok run = rw (full, size, ok, run) refl

  IsTable-empty : (c : ℕ) → c ≤ 64 → IsTable {V = V} c (replicate (2 ^ c) empty_cell)
  IsTable-empty c h = record {
    long = length-replicate (2 ^ c) empty_cell;
    short = h;
    whole = λ j. inl (cell_at-replicate (2 ^ c) j);
    placed = λ j k e. absurd (cc (e, ap (λ r. r.key) (cell_at-replicate {V = V} (2 ^ c) j)));
  }

  module _ (alloc : ℕ → Bool) (ok : (n : ℕ) → alloc n ≡ true) (m : HashMap V)
      (few : m.elems < 2 ^ 58) (counted : occupied m.table ≡ m.elems) (clear : m.tombs ≡ 0) where
    abbrev pub Resized : Type ℓ
    Resized =
        (c : ℕ) × (m' : HashMap V) × (resize_if_needed alloc m ≡ some m')
        × IsOpen c m'
        × (m'.elems ≡ m.elems)
        × (m'.elems * 5 < m'.size * 4)
        × ((q : Key) → assoc q m'.table ≡ assoc q m.table)

    pub resize_full :
        ((j : ℕ) → Whole (cell_at m.table j))
        → Distinct m.table
        → take m.size m.table ≡ m.table
        → ltb (((m.elems + m.tombs) * 5) % 2 ^ 64) ((m.size * 4) % 2 ^ 64) ≡ false
        → Resized
    resize_full whole distinct all full =
        let (d, size, _, le, room) = grow-power 64 2 m.elems few (omega arith) (omega arith) in
        let fresh : List (HashCell V) = replicate (2 ^ d) empty_cell in
        let none_yet : occupied fresh ≡ 0 = occupied-replicate (2 ^ d) empty_cell refl in
        let nothing : (q : Key) → assoc q fresh ≡ none =
          λ q. assoc-replicate q (2 ^ d) empty_cell refl in
        let loaded : m.elems * 5 < 2 ^ d * 4 = omega arith in
        let (tab, run, (t, n, get)) =
          rehash-Moved d m.table fresh whole distinct (λ i k e. nothing k)
            (IsTable-empty d (omega arith)) (omega arith) in
        (
          d,
          record m { table = tab; size = 2 ^ d; tombs = 0 },
          resized alloc m (2 ^ d) tab full size (ok (2 ^ d)) (ap (rehash fresh (2 ^ d)) all ∙ run),
          record {
            is_table = t;
            sized = refl;
            small = le;
            counted = omega (arith, n, none_yet, counted);
            clear = refl;
          },
          refl,
          loaded,
          λ q. get q ∙ ap (orelse (assoc q m.table)) (nothing q) ∙ orelse-none (assoc q m.table),
        )

    -- Growing a table, where it is needed, keeps its keys.
    pub resize : (c : ℕ) → IsOpen c m → Resized
    unfolding resize_if_needed
    resize c o =
        let full = ltb (((m.elems + m.tombs) * 5) % 2 ^ 64) ((m.size * 4) % 2 ^ 64) in
        let bound : 2 ^ c ≤ 2 ^ 61 = power_le c 61 o.small in
        elim (Bool-cases full) [
          | inl e ↦
              let loaded : m.elems * 5 < m.size * 4 =
                ground (arith, e, clear, o.sized, bound, few) in
              (c, m, rw e refl, o, refl, loaded, λ q. refl)
          | inr e ↦
              let same : m.size ≡ length m.table = o.sized ∙ sym o.is_table.long in
              resize_full o.is_table.whole (IsTable-Distinct c m.table o.is_table)
                (take_all m.size m.table same) e
        ]
