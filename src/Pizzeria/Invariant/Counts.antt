-- ===== src/Pizzeria/Invariant/Counts.antt =====
-- lab7/main.c: what each point of `cook_main` and `deliv_main` holds, and the invariant.
use sys_opy.Common.{ℕ, ◌+◌, ◌≡◌, false, Option, none, some, length, get_elem?}
use sys_opy.Common.Int.{ℤ, pos}
use sys_opy.Common.Family.{total}
use sys_opy.Pizzeria.{Kitchen, slots, is_negative}
use sys_opy.Pizzeria.Process.{
  Pc, admitted, inserting, inserted, baking, removing, removed, released, carrying, serving,
  putting, placed, announcing, called, taking, taken, leaving,
}
use sys_opy.Pizzeria.Oven.{occupied}
use sys_opy.Pizzeria.Table.{IsRing, contents, AllPizzas}

-- Between the wait for OVEN_LK and its post.
abbrev pub at_oven : Pc → ℕ
at_oven (inserting _) = 1
at_oven (inserted _ _) = 1
at_oven (removing _ _) = 1
at_oven (removed _) = 1
at_oven (released _) = 1
at_oven _ = 0

-- Between the wait for OVEN_CAP and its post.
abbrev pub oven_unit : Pc → ℕ
oven_unit (admitted _) = 1
oven_unit (inserting _) = 1
oven_unit (inserted _ _) = 1
oven_unit (baking _ _) = 1
oven_unit (removing _ _) = 1
oven_unit (removed _) = 1
oven_unit _ = 0

-- With a pizza in the oven.
abbrev pub in_oven : Pc → ℕ
in_oven (inserted _ _) = 1
in_oven (baking _ _) = 1
in_oven (removing _ _) = 1
in_oven _ = 0

-- Between the wait for TABLE_LK and its post.
abbrev pub at_table : Pc → ℕ
at_table (putting _) = 1
at_table placed = 1
at_table taking = 1
at_table (taken _) = 1
at_table _ = 0

-- With a unit of TABLE_CAP that no pizza on the table accounts for.
abbrev pub table_unit : Pc → ℕ
table_unit (serving _) = 1
table_unit (putting _) = 1
table_unit (taken _) = 1
table_unit (leaving _) = 1
table_unit _ = 0

-- With a pizza on the table that TABLE_AVAIL does not count.
abbrev pub avail_unit : Pc → ℕ
avail_unit placed = 1
avail_unit announcing = 1
avail_unit called = 1
avail_unit taking = 1
avail_unit _ = 0

-- The oven slot that a cook has filled, and with what.
abbrev pub owns : Pc → Option (ℕ × ℕ)
owns (inserted t slot) = some (slot, t)
owns (baking t slot) = some (slot, t)
owns (removing t slot) = some (slot, t)
owns _ = none

-- The pizza in a cook's hands.
abbrev pub carries : Pc → Option ℤ
carries (removed z) = some z
carries (released z) = some z
carries (carrying z) = some z
carries (serving z) = some z
carries (putting z) = some z
carries _ = none

pub record Inv (n : ℕ) (m : Kitchen) (pc : ℕ → Pc) : Type 0 where
  pub ring : IsRing m
  pub width : length m.ovenslots ≡ slots
  pub oven_lk : m.oven_lk + total at_oven n pc ≡ 1
  pub oven_cap : m.oven_cap + total oven_unit n pc ≡ slots
  pub table_lk : m.table_lk + total at_table n pc ≡ 1
  pub table_cap : m.table_cap + total table_unit n pc + m.ontable ≡ slots
  pub table_avail : m.table_avail + total avail_unit n pc ≡ m.ontable
  pub full : occupied m.ovenslots ≡ total in_oven n pc
  pub counted : m.inoven ≡ total in_oven n pc
  pub stored :
      (i slot t : ℕ) → owns (pc i) ≡ some (slot, t) → get_elem? m.ovenslots slot ≡ some (pos t)
  pub unique :
      (i j slot t u : ℕ) → owns (pc i) ≡ some (slot, t) → owns (pc j) ≡ some (slot, u) → i ≡ j
  pub pizzas : AllPizzas (contents m)
  pub loaded : (i : ℕ) (z : ℤ) → carries (pc i) ≡ some z → is_negative z ≡ false
