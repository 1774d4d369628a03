-- ===== src/Shell/HashMap/Write.antt =====
-- A key and its value written to the cell that a search of lab5/zad1/main.c ended at.
use sys_opy.Common.{
  ℕ, ℕ_discrete, ◌-◌, ◌^◌, ◌<◌, ◌≡◌, ◌≢◌, sym, ap, ◌∙◌, true, ◌==◌, str_eq, str_eq_iff, some, List,
  length, set, get_or-set, length-set, arith, inl, inr, ◌⊎◌, Bool-cases,
}
use mathlib.Core.Option.{some-injective}
use sys_opy.Shell.HashMap.{Key, HashCell, empty_cell, hashfn}
use sys_opy.Shell.HashMap.Probe.{cell_at, stops, stops_key, probe-set}
use sys_opy.Shell.HashMap.Assoc.{filled, holds, holds_same, Only}
use sys_opy.Shell.HashMap.Cells.{Whole}
use sys_opy.Shell.HashMap.Search.{inc_of, find, IsTable}

module _ {ℓ} {V : Type ℓ} (c : ℕ) (tab : List (HashCell V)) (t : IsTable c tab) (k : Key) (v : V)
    (j : ℕ) (lt : j < length tab) (e : find tab (2 ^ c) k ≡ some j) (only : Only k tab j) where
  cell_at-write :
      (i : ℕ)
      → ((j ≡ i) × (cell_at (set tab j (filled k v)) i ≡ filled k v))
        ⊎ ((j ≢ i) × (cell_at (set tab j (filled k v)) i ≡ cell_at tab i))
  cell_at-write i =
      let read = get_or-set tab j i (filled k v) empty_cell lt in
      elim (ℕ_discrete j i) [
        | yes s ↦ inl (s, read ∙ ground (arith, s))
        | no ne ↦ inr (ne, read ∙ ground (arith, ne))
      ]

  Whole-write : (i : ℕ) → Whole (cell_at (set tab j (filled k v)) i)
  Whole-write i = elim (cell_at-write i) [
    | inl (s, at) ↦ inr (k, v, at)
    | inr (ne, at) ↦ rw at (t.whole i)
  ]

  away : (i : ℕ) (q : Key) → j ≢ i → (cell_at tab i).key ≡ some q → stops q (some k) ≡ (j == i)
  away i q ne at = elim (Bool-cases (str_eq q k)) [
    | inl s ↦
        let here : holds k (cell_at tab i).key ≡ true =
          rw (at, (str_eq_iff q k).0 s) (holds_same k) in
        absurd (ne (sym (only i here)))
    | inr s ↦ ground (arith, s, ne, stops_key q k)
  ]

  placed_write :
      (i : ℕ) (q : Key)
      → (cell_at (set tab j (filled k v)) i).key ≡ some q
      → find (set tab j (filled k v)) (2 ^ c) q ≡ some i
  placed_write i q h =
      let hash = hashfn q in
      let search = probe-set (2 ^ c - 1) (inc_of hash) (2 ^ c) tab hash q j i (filled k v) lt in
      elim (cell_at-write i) [
        | inl (s, at) ↦
            let same : k ≡ q = some-injective k q (sym (ap (λ r. r.key) at) ∙ h) in
            let stop : stops q (some k) ≡ (j == i) =
              ground (arith, s, stops_key q k, (str_eq_iff q k).1 (sym same)) in
            search stop (rw (← same) (e ∙ ap some s))
        | inr (ne, at) ↦
            let old : (cell_at tab i).key ≡ some q = sym (ap (λ r. r.key) at) ∙ h in
            search (away i q ne old) (t.placed i q old)
      ]

  pub IsTable-write : IsTable c (set tab j (filled k v))
  IsTable-write = record {
    long = length-set tab j (filled k v) ∙ t.long;
    short = t.short;
    whole = Whole-write;
    placed = placed_write;
  }
