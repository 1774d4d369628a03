-- ===== src/Pizzeria.antt =====
-- lab7/main.c: cooks and deliverers that share an oven and a table in shared memory, guarded by five
-- semaphores. The fields of `struct shared` and the semaphores' values are one record, `Kitchen`.
-- A critical section of the code is a function on it; `none` is an assertion that fails or an
-- access out of range.
pub mod Semaphores
pub mod SystemV
pub mod Process
pub mod Oven
pub mod Table
pub mod Invariant
pub mod Queue
pub mod Safety
pub mod Progress
mod Tests
use sys_opy.Common.{
  ℕ, suc, ◌+◌, ◌-◌, ◌%◌, Bool, true, false, if◌then◌else◌, Option, none, some, List, [], ◌∷◌,
  get_elem?, get_or, set, replicate,
}
use sys_opy.Common.Int.{ℤ, pos, negsuc}

-- `SLOTS`, as the Makefile builds it.
abbrev pub slots : ℕ
slots = 5

pub record Kitchen : Type 0 where
  pub ovenslots : List ℤ
  pub tableslots : List ℤ
  pub tablehead : ℕ
  pub tabletail : ℕ
  pub inoven : ℕ
  pub ontable : ℕ
  pub oven_lk : ℕ
  pub oven_cap : ℕ
  pub table_lk : ℕ
  pub table_cap : ℕ
  pub table_avail : ℕ

-- The value -1 of a slot that holds no pizza.
abbrev pub vacant : ℤ
vacant = negsuc 0

-- The test `x < 0`.
abbrev pub is_negative : ℤ → Bool
is_negative (pos n) = false
is_negative (negsuc n) = true

pub setup_shm : Kitchen
setup_shm = record {
  ovenslots = replicate slots vacant;
  tableslots = replicate slots vacant;
  tablehead = 0;
  tabletail = 0;
  inoven = 0;
  ontable = 0;
  oven_lk = 1;
  oven_cap = slots;
  table_lk = 1;
  table_cap = slots;
  table_avail = 0;
}

-- The search for the first vacant slot, from index `slot` on.
pub find_slot : List ℤ → ℕ → ℕ
find_slot [] slot = slot
find_slot (z ∷ zs) slot = if is_negative z then slot else find_slot zs (suc slot)

-- The section between `oven_before_insert` and `oven_after_insert`.
pub oven_insert : ℕ → Kitchen → Option (ℕ × Kitchen)
unfolding find_slot
oven_insert type m =
    let slot = find_slot m.ovenslots 0 in
    if is_negative (get_or m.ovenslots slot (pos 0))
    then some
        (slot, record m { ovenslots = set m.ovenslots slot (pos type); inoven = m.inoven + 1 })
    else none

-- The section between `oven_before_remove` and `oven_after_remove`. `inoven--` runs only where a
-- cook has a pizza in the oven, so `inoven` is not 0 there.
pub oven_remove : ℕ → Kitchen → ℤ × Kitchen
oven_remove slot m = (
  get_or m.ovenslots slot vacant,
  record m { ovenslots = set m.ovenslots slot vacant; inoven = m.inoven - 1 },
)

-- The section between `table_before_put` and `table_after_put`.
pub table_put : ℤ → Kitchen → Kitchen
table_put cooked m = record m {
  tableslots = set m.tableslots m.tablehead cooked;
  tablehead = (m.tablehead + 1) % slots;
  ontable = m.ontable + 1;
}

-- The section between `table_before_get` and `table_after_get`. `ontable--` runs only where the
-- table is not empty.
pub table_get : Kitchen → Option (ℤ × Kitchen)
table_get m =
    let pizza = get_or m.tableslots m.tabletail vacant in
    if is_negative pizza
    then none
    else some (
      pizza,
      record m {
        tableslots = set m.tableslots m.tabletail vacant;
        tabletail = (m.tabletail + 1) % slots;
        ontable = m.ontable - 1;
      },
    )
