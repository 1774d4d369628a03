-- ===== src/Shell/HashMap/Assoc.antt =====
-- The cells of the hash table of lab5/zad1/main.c read as an association list.
use sys_opy.Common.{
  ℕ, zero, suc, ◌<◌, ◌≡◌, refl, sym, ap, ◌∙◌, Bool, true, false, if◌then◌else◌, str_eq, str_eq_iff,
  Option, none, some, List, [], ◌∷◌, length, replicate, set, arith, inl, inr, Bool-cases,
}
use sys_opy.Shell.HashMap.{Key, HashCell, empty_cell}
use sys_opy.Shell.HashMap.Probe.{cell_at, Fits}

pub holds : Key → Option Key → Bool
holds k none = false
holds k (some k') = str_eq k k'

pub holds-true : (k : Key) (o : Option Key) → holds k o ≡ true → o ≡ some k
unfolding holds
holds-true k none e = cc
holds-true k (some k') e = ap some (sym ((str_eq_iff k k').0 e))

pub holds_same : (k : Key) → holds k (some k) ≡ true
unfolding holds
holds_same k = (str_eq_iff k k).1 refl

module _ {ℓ} {V : Type ℓ} where
  abbrev pub filled : Key → V → HashCell V
  filled k v = record { key = some k; val = some v }

  -- The value of the first cell that holds the key.
  pub assoc : Key → List (HashCell V) → Option V
  assoc k [] = none
  assoc k (cell ∷ cells) = if holds k cell.key then cell.val else assoc k cells

  -- No cell but that at `j` holds the key.
  abbrev pub Only : Key → List (HashCell V) → ℕ → Type 0
  Only k tab j = (i : ℕ) → holds k (cell_at tab i).key ≡ true → i ≡ j

  abbrev pub Absent : Key → List (HashCell V) → Type 0
  Absent k tab = (i : ℕ) → holds k (cell_at tab i).key ≡ false

  pub assoc_nil : (q : Key) → assoc q [] ≡ none
  unfolding assoc
  assoc_nil q = refl

  pub assoc_empty :
      (q : Key) (cells : List (HashCell V)) → assoc q (empty_cell ∷ cells) ≡ assoc q cells
  unfolding assoc holds
  assoc_empty q cells = refl

  pub assoc-replicate :
      (q : Key) (n : ℕ) (cell : HashCell V) → cell ≡ empty_cell → assoc q (replicate n cell) ≡ none
  assoc-replicate q zero cell e = assoc_nil q
  assoc-replicate q (suc n) cell e =
      ap (λ c. assoc q (c ∷ replicate n cell)) e
      ∙ assoc_empty q (replicate n cell)
      ∙ assoc-replicate q n cell e

  pub assoc-filled :
      (q k : Key) (v : V) (cells : List (HashCell V))
      → assoc q (filled k v ∷ cells) ≡ (if str_eq q k then some v else assoc q cells)
  unfolding assoc holds
  assoc-filled q k v cells = refl

  Absent-tail :
      (k : Key) (cell : HashCell V) (cells : List (HashCell V))
      → Only k (cell ∷ cells) 0
      → Absent k cells
  Absent-tail k cell cells only i = elim (Bool-cases (holds k (cell_at cells i).key)) [
    | inl t ↦ absurd (omega (arith, only (suc i) t))
    | inr f ↦ f
  ]

  Only-tail :
      (k : Key) (cell : HashCell V) (cells : List (HashCell V)) (j : ℕ)
      → Only k (cell ∷ cells) (suc j)
      → (holds k cell.key ≡ false) × Only k cells j
  Only-tail k cell cells j only = (
    elim (Bool-cases (holds k cell.key)) [ inl t ↦ absurd (omega (arith, only 0 t)) | inr f ↦ f ],
    λ i t. omega (arith, only (suc i) t),
  )

  pub assoc-none : (k : Key) (tab : List (HashCell V)) → Absent k tab → assoc k tab ≡ none
  unfolding assoc
  assoc-none k [] h = refl
  assoc-none k (cell ∷ cells) h = rw (h 0) (assoc-none k cells (λ i. h (suc i)))

  -- The one cell that may hold the key has its value.
  pub assoc-found :
      (k : Key) (tab : List (HashCell V)) (j : ℕ)
      → j < length tab
      → Only k tab j
      → Fits k (cell_at tab j)
      → ((cell_at tab j).key ≡ none → (cell_at tab j).val ≡ none)
      → assoc k tab ≡ (cell_at tab j).val
  unfolding assoc holds
  assoc-found k [] j lt only fits paired = absurd (omega arith)
  assoc-found k (cell ∷ cells) zero lt only (inr e) paired = rw (e, holds_same k) refl
  assoc-found k (cell ∷ cells) zero lt only (inl e) paired =
      rw (e, paired e) (assoc-none k cells (Absent-tail k cell cells only))
  assoc-found k (cell ∷ cells) (suc j) lt only fits paired =
      let (f, rest) = Only-tail k cell cells j only in
      rw f (assoc-found k cells j (omega arith) rest fits paired)

  other_key :
      (k q : Key) (cell : HashCell V) → str_eq q k ≡ false → Fits k cell → holds q cell.key ≡ false
  unfolding holds
  other_key k q cell ne (inl e) = rw e refl
  other_key k q cell ne (inr e) = rw e ne

  pub assoc-set :
      (k : Key) (v : V) (q : Key) (tab : List (HashCell V)) (j : ℕ)
      → j < length tab
      → Only k tab j
      → Fits k (cell_at tab j)
      → assoc q (set tab j (filled k v)) ≡ (if str_eq q k then some v else assoc q tab)
  unfolding assoc holds
  assoc-set k v q [] j lt only fits = absurd (omega arith)
  assoc-set k v q (cell ∷ cells) zero lt only fits = elim (Bool-cases (str_eq q k)) [
    | inl e ↦ rw e refl
    | inr e ↦ rw (e, other_key k q cell e fits) refl
  ]
  assoc-set k v q (cell ∷ cells) (suc j) lt only fits =
      let (f, rest) = Only-tail k cell cells j only in
      let later = assoc-set k v q cells j (omega arith) rest fits in
      elim (Bool-cases (str_eq q k)) [
        | inl e ↦
            let same : q ≡ k = (str_eq_iff q k).0 e in
            let head : holds q cell.key ≡ false = rw same f in ground (arith, later, head, e)
        | inr e ↦ ground (arith, later, e)
      ]
