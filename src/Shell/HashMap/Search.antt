-- ===== src/Shell/HashMap/Search.antt =====
-- Tables of lab5/zad1/main.c in which every key is found where it stands.
use Prim.Native.Nat.{bit_and, bit_or}
use sys_opy.Common.{
  ℕ, ◌+◌, ◌-◌, ◌*◌, ◌/◌, ◌%◌, ◌^◌, ◌≤◌, ◌<◌, ◌≡◌, ◌≢◌, sym, ap, ◌∙◌, Option, none, some, List,
  length, arith, inl, inr, Option-cases,
}
use mathlib.Core.Option.{some-injective}
use sys_opy.Shell.HashMap.Cells.{occupied, Whole, empty_place}
use native.Mathlib.Nat.{add-mul-mod_self_right, mod-eq_of_lt, mod_self, mod-lt}
use sys_opy.Common.Bits.{bit_and-mask, bit_or_odd, steps_reach, pow-pos}
use sys_opy.Shell.HashMap.{Key, HashCell, probe, get_cell, hashfn}
use sys_opy.Shell.HashMap.Probe.{cell_at, stop_at, stop_at_empty, Fits, probe-Fits, probe-none}
use sys_opy.Shell.HashMap.Assoc.{holds-true, Only}

-- The step of the search for a key with this hash.
abbrev pub inc_of : ℕ → ℕ
inc_of hash = bit_or ((hash / 2 ^ 5 + 2 ^ 64 - hash) % 2 ^ 64) 1

-- An odd step reaches every place.
odd_reach :
    (c hash inc j : ℕ)
    → inc % 2 ≡ 1
    → j < 2 ^ c
    → (i : ℕ) × (i < 2 ^ c) × ((hash + i * inc) % 2 ^ c ≡ j)
odd_reach c hash inc j odd lt =
    let (i, a, b, small, meet) = steps_reach c hash (inc / 2) j in
    let two : 2 * (inc / 2) + 1 ≡ inc = omega (arith, odd) in
    let met : hash + i * inc + a * 2 ^ c ≡ j + b * 2 ^ c =
      ap (λ x. hash + i * x + a * 2 ^ c) (sym two) ∙ meet in
    (
      i,
      small,
      sym (add-mul-mod_self_right (hash + i * inc) a (2 ^ c))
          ∙ ap (λ x. x % 2 ^ c) met
          ∙ add-mul-mod_self_right j b (2 ^ c)
          ∙ mod-eq_of_lt lt,
    )

module _ {ℓ} {V : Type ℓ} where
  abbrev pub find : List (HashCell V) → ℕ → Key → Option ℕ
  find tab n k = probe n tab (n - 1) (inc_of (hashfn k)) (hashfn k) k

  pub record IsTable (c : ℕ) (tab : List (HashCell V)) : Type ℓ where
    pub long : length tab ≡ 2 ^ c
    pub short : c ≤ 64
    pub whole : (j : ℕ) → Whole (cell_at tab j)
    pub placed : (j : ℕ) (k : Key) → (cell_at tab j).key ≡ some k → find tab (2 ^ c) k ≡ some j

  pub get_cell-find :
      (tab : List (HashCell V)) (c : ℕ) (k : Key) → get_cell tab (2 ^ c) k ≡ find tab (2 ^ c) k
  unfolding get_cell
  get_cell-find tab c k =
      let power : bit_and (2 ^ c) (2 ^ c - 1) ≡ 0 = bit_and-mask c (2 ^ c) ∙ mod_self (2 ^ c) in
      let positive = pow-pos c in ground (arith, power, positive)

  -- In a table with an empty cell every search ends.
  find_some :
      (c : ℕ) (tab : List (HashCell V))
      → IsTable c tab
      → (j : ℕ) → j < 2 ^ c
      → (cell_at tab j).key ≡ none
      → (k : Key) → find tab (2 ^ c) k ≢ none
  find_some c tab t j lt at k e =
      let hash = hashfn k in
      let inc = inc_of hash in
      let mask : 2 ^ c - 1 + 1 ≡ 2 ^ c = omega (arith, pow-pos c) in
      let odd = bit_or_odd ((hash / 2 ^ 5 + 2 ^ 64 - hash) % 2 ^ 64) in
      let (i, small, place) = odd_reach c hash inc j odd lt in
      let seen = probe-none (2 ^ c - 1) inc (2 ^ c) tab hash k e c mask t.short i small in
      let same : (hash + i * inc) % (2 ^ c - 1 + 1) ≡ j =
        ap (λ x. (hash + i * inc) % x) mask ∙ place in
      cc (seen, ap (stop_at k tab) same, stop_at_empty k tab j at)

  Only-found :
      (c : ℕ) (tab : List (HashCell V))
      → IsTable c tab
      → (k : Key) (j : ℕ) → find tab (2 ^ c) k ≡ some j
      → Only k tab j
  Only-found c tab t k j e i h =
      some-injective i j (sym (t.placed i k (holds-true k (cell_at tab i).key h)) ∙ e)

  -- The search for a key ends at its cell, or at an empty one when no cell has it.
  pub find-total :
      (c : ℕ) (tab : List (HashCell V))
      → IsTable c tab
      → occupied tab < 2 ^ c
      → (k : Key)
      → (j : ℕ) × (find tab (2 ^ c) k ≡ some j)
        × (j < length tab)
        × Fits k (cell_at tab j)
        × Only k tab j
  find-total c tab t free k =
      let hash = hashfn k in
      let inc = inc_of hash in
      elim (Option-cases (find tab (2 ^ c) k)) [
        | inl e ↦
            let (j, lt, at) = empty_place tab (omega (arith, free, t.long)) in
            absurd (find_some c tab t j (omega (arith, lt, t.long)) at k e)
        | inr (j, e) ↦
            let (fits, (x, at)) = probe-Fits (2 ^ c - 1) inc (2 ^ c) tab hash k j e in
            (
              j,
              e,
              omega (arith, at, bit_and-mask c x, mod-lt x (pow-pos c), t.long),
              fits,
              Only-found c tab t k j e,
            )
      ]
