-- ===== src/Shell/HashMap/Probe.antt =====
-- Searches of the hash table of lab5/zad1/main.c, before and after a cell is written.
use Prim.Native.Nat.{bit_and}
use sys_opy.Common.{
  ℕ, zero, suc, ◌+◌, ◌*◌, ◌%◌, ◌^◌, ◌≤◌, ◌<◌, ◌≡◌, refl, sym, ap, ◌∙◌, Bool, true, false,
  if◌then◌else◌, ◌==◌, str_eq, str_eq_iff, Option, none, some, List, length, set, get_or,
  get_or-set, arith, inl, inr, ◌⊎◌, Bool-cases, Option-cases,
}
use sys_opy.Common.Bits.{mask-place, pow-multiple, mod_wrap}
use sys_opy.Shell.HashMap.{Key, HashCell, empty_cell, probe}

-- Whether a search for the key stops at a cell with this one.
pub stops : Key → Option Key → Bool
stops k none = true
stops k (some k') = str_eq k k'

pub stops-true : (k : Key) (o : Option Key) → stops k o ≡ true → (o ≡ none) ⊎ (o ≡ some k)
unfolding stops
stops-true k none e = inl refl
stops-true k (some k') e = inr (ap some (sym ((str_eq_iff k k').0 e)))

pub stops_same : (k : Key) (o : Option Key) → o ≡ some k → stops k o ≡ true
unfolding stops
stops_same k none e = cc
stops_same k (some k') e = (str_eq_iff k k').1 (ground (arith, e))

pub stops_key : (k k' : Key) → stops k (some k') ≡ str_eq k k'
unfolding stops
stops_key k k' = refl

module _ {ℓ} {V : Type ℓ} where
  abbrev pub cell_at : List (HashCell V) → ℕ → HashCell V
  cell_at tab i = get_or tab i empty_cell

  pub stop_at : Key → List (HashCell V) → ℕ → Bool
  stop_at k tab p = stops k (cell_at tab p).key

  pub stop_at_empty :
      (k : Key) (tab : List (HashCell V)) (p : ℕ)
      → (cell_at tab p).key ≡ none
      → stop_at k tab p ≡ true
  unfolding stop_at stops
  stop_at_empty k tab p e = rw e refl

  stop_at-set :
      (k : Key) (tab : List (HashCell V)) (j p : ℕ) (cell : HashCell V)
      → j < length tab
      → stop_at k (set tab j cell) p ≡ (if j == p then stops k cell.key else stop_at k tab p)
  unfolding stop_at
  stop_at-set k tab j p cell lt =
      ap (λ c. stops k c.key) (get_or-set tab j p cell empty_cell lt)
      ∙ elim (Bool-cases (j == p)) [ inl e ↦ rw e refl | inr e ↦ rw e refl ]

  -- A cell that a search for the key stops at.
  abbrev pub Fits : Key → HashCell V → Type 0
  Fits k cell = (cell.key ≡ none) ⊎ (cell.key ≡ some k)

  module _ (mask inc : ℕ) where
    probe-suc :
        (fuel : ℕ) (tab : List (HashCell V)) (idx : ℕ) (k : Key)
        → probe (suc fuel) tab mask inc idx k ≡ (
            if stop_at k tab (bit_and idx mask)
            then some (bit_and idx mask)
            else probe fuel tab mask inc ((idx + inc) % 2 ^ 64) k)
    unfolding probe stops stop_at
    probe-suc fuel tab idx k = elim (Option-cases (cell_at tab (bit_and idx mask)).key) [
      | inl e ↦ rw (e, probe) refl
      | inr (k', e) ↦ rw (e, probe) refl
    ]

    probe-stop_at :
        (fuel : ℕ) (tab : List (HashCell V)) (idx : ℕ) (k : Key) (j : ℕ)
        → probe fuel tab mask inc idx k ≡ some j
        → (stop_at k tab j ≡ true) × ((x : ℕ) × (j ≡ bit_and x mask))
    probe-stop_at zero tab idx k j e = unfold probe in cc
    probe-stop_at (suc fuel) tab idx k j e =
        let p = bit_and idx mask in
        let step = sym (probe-suc fuel tab idx k) ∙ e in
        elim (Bool-cases (stop_at k tab p)) [
          | inl s ↦ let same : j ≡ p = ground (arith, step, s) in (rw same s, (idx, same))
          | inr s ↦ probe-stop_at fuel tab ((idx + inc) % 2 ^ 64) k j (ground (arith, step, s))
        ]

    pub probe-Fits :
        (fuel : ℕ) (tab : List (HashCell V)) (idx : ℕ) (k : Key) (j : ℕ)
        → probe fuel tab mask inc idx k ≡ some j
        → Fits k (cell_at tab j) × ((x : ℕ) × (j ≡ bit_and x mask))
    unfolding stop_at
    probe-Fits fuel tab idx k j e =
        let (s, place) = probe-stop_at fuel tab idx k j e in
        (stops-true k (cell_at tab j).key s, place)

    -- A write that a search does not stop at before, or that it stops at anew, leaves its result.
    pub probe-set :
        (fuel : ℕ) (tab : List (HashCell V)) (idx : ℕ) (k : Key) (i j : ℕ) (cell : HashCell V)
        → i < length tab
        → stops k cell.key ≡ (i == j)
        → probe fuel tab mask inc idx k ≡ some j
        → probe fuel (set tab i cell) mask inc idx k ≡ some j
    probe-set zero tab idx k i j cell lt c e = unfold probe in cc
    probe-set (suc fuel) tab idx k i j cell lt c e = ground (
      arith,
      probe-suc fuel tab idx k,
      probe-suc fuel (set tab i cell) idx k,
      e,
      c,
      stop_at-set k tab i (bit_and idx mask) cell lt,
      probe-set fuel tab ((idx + inc) % 2 ^ 64) k i j cell lt c,
    )

    -- A search that does not end has seen only cells that it does not stop at.
    pub probe-none :
        (fuel : ℕ) (tab : List (HashCell V)) (idx : ℕ) (k : Key)
        → probe fuel tab mask inc idx k ≡ none
        → (c : ℕ) → mask + 1 ≡ 2 ^ c
        → c ≤ 64
        → (i : ℕ) → i < fuel
        → stop_at k tab ((idx + i * inc) % (mask + 1)) ≡ false
    probe-none zero tab idx k e c m b i lt = absurd (omega arith)
    probe-none (suc fuel) tab idx k e c m b zero lt =
        let start : (idx + 0 * inc) ≡ idx = omega arith in
        let at = mask-place c mask idx m in
        rw (start, ← at) (ground (arith, probe-suc fuel tab idx k, e))
    probe-none (suc fuel) tab idx k e c m b (suc i) lt =
        let later : probe fuel tab mask inc ((idx + inc) % 2 ^ 64) k ≡ none =
          ground (arith, probe-suc fuel tab idx k, e) in
        let (d, w) = pow-multiple 64 c b in
        let wrapped =
          mod_wrap (idx + inc) (i * inc) (2 ^ 64) d (mask + 1) (w ∙ ap (λ t. d * t) (sym m)) in
        let next : (idx + inc) + i * inc ≡ idx + suc i * inc = omega arith in
        ap (stop_at k tab) (sym (wrapped ∙ ap (λ t. t % (mask + 1)) next))
        ∙ probe-none fuel tab ((idx + inc) % 2 ^ 64) k later c m b i (omega arith)
