-- ===== src/Shell/HashMap/Cells.antt =====
-- The cells of the hash table of lab5/zad1/main.c, empty or with a key and its value.
use sys_opy.Common.{
  ℕ, zero, suc, ◌+◌, ◌<◌, ◌≡◌, refl, Option, none, some, List, [], ◌∷◌, replicate, length, set,
  arith, inl, inr, ◌⊎◌, Option-cases,
}
use sys_opy.Shell.HashMap.{Key, HashCell, empty_cell}
use sys_opy.Shell.HashMap.Probe.{cell_at}
use sys_opy.Shell.HashMap.Assoc.{filled}

pub weight : Option Key → ℕ
weight none = 0
weight (some k) = 1

pub weight-none : (o : Option Key) → o ≡ none → weight o ≡ 0
unfolding weight
weight-none o e = rw e refl

pub weight-some : (o : Option Key) (k : Key) → o ≡ some k → weight o ≡ 1
unfolding weight
weight-some o k e = rw e refl

module _ {ℓ} {V : Type ℓ} where
  -- No tombstone.
  abbrev pub Whole : HashCell V → Type ℓ
  Whole cell = (cell ≡ empty_cell) ⊎ ((k : Key) × (v : V) × (cell ≡ filled k v))

  -- The number of keys.
  pub occupied : List (HashCell V) → ℕ
  occupied [] = 0
  occupied (cell ∷ cells) = weight cell.key + occupied cells

  pub occupied_nil : (tab : List (HashCell V)) → tab ≡ [] → occupied tab ≡ 0
  unfolding occupied
  occupied_nil tab e = rw e refl

  pub occupied_cons :
      (cell : HashCell V) (cells : List (HashCell V))
      → occupied (cell ∷ cells) ≡ weight cell.key + occupied cells
  unfolding occupied
  occupied_cons cell cells = refl

  pub empty_place :
      (tab : List (HashCell V))
      → occupied tab < length tab
      → (t : ℕ) × (t < length tab) × ((cell_at tab t).key ≡ none)
  unfolding occupied weight
  empty_place [] lt = absurd (omega arith)
  empty_place (cell ∷ cells) lt = elim (Option-cases cell.key) [
    | inl e ↦ (0, omega arith, e)
    | inr (k, e) ↦
        let (t, b, at) = empty_place cells (omega (arith, lt, weight-some cell.key k e)) in
        (suc t, omega arith, at)
  ]

  pub occupied-set :
      (tab : List (HashCell V)) (j : ℕ) (k : Key) (v : V)
      → j < length tab
      → occupied (set tab j (filled k v)) + weight (cell_at tab j).key ≡ suc (occupied tab)
  unfolding occupied weight
  occupied-set [] j k v lt = absurd (omega arith)
  occupied-set (cell ∷ cells) zero k v lt = omega arith
  occupied-set (cell ∷ cells) (suc j) k v lt = omega (arith, occupied-set cells j k v (omega arith))

  pub occupied-replicate :
      (n : ℕ) (cell : HashCell V) → cell.key ≡ none → occupied (replicate n cell) ≡ 0
  unfolding occupied weight
  occupied-replicate zero cell e = refl
  occupied-replicate (suc n) cell e =
      omega (arith, occupied-replicate n cell e, weight-none cell.key e)

  pub cell_at-replicate : (n i : ℕ) → cell_at (replicate n (empty_cell {V = V})) i ≡ empty_cell
  cell_at-replicate zero i = refl
  cell_at-replicate (suc n) zero = refl
  cell_at-replicate (suc n) (suc i) = cell_at-replicate n i
