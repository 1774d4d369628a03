-- ===== src/Pizzeria/Safety.antt =====
-- lab7/main.c: what holds in every state that `cook_main` and `deliv_main` can reach.
use sys_opy.Common.{
  ℕ, ◌+◌, ◌<◌, ◌≤◌, ◌≡◌, sym, ap, ◌∙◌, false, some, List, [], ◌∷◌, ◌++◌, arith, length, set, dec_lt,
}
use mathlib.Core.Path.{subst}
use sys_opy.Common.Int.{ℤ, pos}
use sys_opy.Common.Family.{total, add-le-total, le-total, total_mono, total_strict}
use sys_opy.Pizzeria.{
  Kitchen, slots, vacant, is_negative, find_slot, oven_insert, oven_remove, table_put, table_get,
}
use sys_opy.Pizzeria.Process.{Pc, System, Reach, inserting, removing, putting, taking, History}
use sys_opy.Pizzeria.Queue.{History-Reach, History-contents}
use sys_opy.Pizzeria.Oven.{occupied, find_slot-vacant, get_or-of-get_elem?}
use sys_opy.Pizzeria.Table.{contents, AllPizzas, contents-table_put, table_get_lem}
use sys_opy.Pizzeria.Invariant.{
  at_oven, oven_unit, in_oven, at_table, table_unit, avail_unit, Inv, Reach-Inv,
}

-- A weight that sums to at most 1 is carried by one process at most.
alone :
    (w : Pc → ℕ) (n : ℕ) (pc : ℕ → Pc) (i j : ℕ)
    → total w n pc ≤ 1
    → i < n
    → j < n
    → w (pc i) ≡ 1
    → w (pc j) ≡ 1
    → i ≡ j
alone w n pc i j few hi hj a b = elim (dec_lt i j) [
  | yes lt ↦ absurd (omega (arith, add-le-total w n pc i j lt hj))
  | no ge ↦ elim (dec_lt j i) [
    | yes gt ↦ absurd (omega (arith, add-le-total w n pc j i gt hi))
    | no le ↦ omega arith
  ]
]

in_oven-le : (p : Pc) → in_oven p ≤ oven_unit p
in_oven-le p = ground arith

bakers-le : (n : ℕ) (pc : ℕ → Pc) → total in_oven n pc ≤ total oven_unit n pc
bakers-le = total_mono in_oven oven_unit in_oven-le

module _ {cooks deliverers : ℕ} {s : System} (r : Reach cooks deliverers s) where
  -- In every reachable state at most one process is between the wait for the oven's lock and its
  -- post.
  pub oven_exclusive :
      (i j : ℕ)
      → i < cooks + deliverers
      → j < cooks + deliverers
      → at_oven (s.pc i) ≡ 1
      → at_oven (s.pc j) ≡ 1
      → i ≡ j
  oven_exclusive i j hi hj a b =
      let inv : Inv (cooks + deliverers) s.kitchen s.pc = Reach-Inv r in
      alone at_oven _ s.pc i j (omega (arith, inv.oven_lk)) hi hj a b

  -- In every reachable state at most one process is between the wait for the table's lock and its
  -- post.
  pub table_exclusive :
      (i j : ℕ)
      → i < cooks + deliverers
      → j < cooks + deliverers
      → at_table (s.pc i) ≡ 1
      → at_table (s.pc j) ≡ 1
      → i ≡ j
  table_exclusive i j hi hj a b =
      let inv : Inv (cooks + deliverers) s.kitchen s.pc = Reach-Inv r in
      alone at_table _ s.pc i j (omega (arith, inv.table_lk)) hi hj a b

  -- In every reachable state `inoven` is the number of slots of the oven that hold a pizza, neither
  -- it nor `ontable` exceeds the number of slots, and what the table's queue holds are pizzas.
  pub capacity :
      (s.kitchen.inoven ≡ occupied s.kitchen.ovenslots)
      × (s.kitchen.inoven ≤ slots)
      × (s.kitchen.ontable ≤ slots)
      × AllPizzas (contents s.kitchen)
  capacity =
      let inv : Inv (cooks + deliverers) s.kitchen s.pc = Reach-Inv r in
      (
        inv.counted ∙ sym inv.full,
        omega (arith, inv.oven_cap, inv.counted, bakers-le (cooks + deliverers) s.pc),
        inv.ring.fits,
        inv.pizzas,
      )

  -- A cook in its critical section always finds a vacant slot of the oven: the assertion of
  -- `cook_main` holds and the slot's index is in range.
  pub oven_insert_total :
      (i type : ℕ)
      → i < cooks + deliverers
      → s.pc i ≡ inserting type
      → (slot : ℕ) × (m : Kitchen) × (oven_insert type s.kitchen ≡ some (slot, m)) × (slot < slots)
  unfolding oven_insert
  oven_insert_total i type hi e =
      let inv : Inv (cooks + deliverers) s.kitchen s.pc = Reach-Inv r in
      let fewer : total in_oven _ s.pc < total oven_unit _ s.pc =
        total_strict in_oven oven_unit in_oven-le _ s.pc i hi (rw e (omega arith)) in
      let room : occupied s.kitchen.ovenslots < length s.kitchen.ovenslots =
        omega (arith, fewer, inv.full, inv.oven_cap, inv.width) in
      let (inside, free) = find_slot-vacant s.kitchen.ovenslots room in
      let slot : ℕ = find_slot s.kitchen.ovenslots 0 in
      (
        slot,
        record s.kitchen {
          ovenslots = set s.kitchen.ovenslots slot (pos type);
          inoven = s.kitchen.inoven + 1;
        },
        rw free,
        omega (arith, inside, inv.width),
      )

  -- In every reachable state a cook that is about to empty its slot takes out of the oven the pizza
  -- that it has put there.
  pub oven_remove_own :
      (i type slot : ℕ) → s.pc i ≡ removing type slot → (oven_remove slot s.kitchen).0 ≡ pos type
  unfolding oven_remove
  oven_remove_own i type slot e =
      get_or-of-get_elem? _ slot (pos type) vacant ((Reach-Inv r).stored i slot type (rw e))

  -- A deliverer in its critical section finds the pizza at the front of the queue.
  pub table_get-front :
      (i : ℕ)
      → i < cooks + deliverers
      → s.pc i ≡ taking
      → (z : ℤ) × (m : Kitchen) × (table_get s.kitchen ≡ some (z, m))
        × (contents s.kitchen ≡ z ∷ contents m)
        × (is_negative z ≡ false)
  table_get-front i hi e =
      let inv : Inv (cooks + deliverers) s.kitchen s.pc = Reach-Inv r in
      let here : avail_unit (s.pc i) ≡ 1 = rw e in
      let lying : 0 < s.kitchen.ontable =
        omega (arith, inv.table_avail, le-total avail_unit _ s.pc i hi) in
      let (z, m, done, split, kept) = table_get_lem inv.ring inv.pizzas lying in
      (z, m, done, split, (subst AllPizzas split inv.pizzas).0)

  -- A cook in its critical section at the table appends its pizza to the queue: it never overwrites
  -- one that waits there.
  pub table_put_appends :
      (i : ℕ) (z : ℤ)
      → i < cooks + deliverers
      → s.pc i ≡ putting z
      → contents (table_put z s.kitchen) ≡ contents s.kitchen ++ z ∷ []
  table_put_appends i z hi e =
      let inv : Inv (cooks + deliverers) s.kitchen s.pc = Reach-Inv r in
      let here : table_unit (s.pc i) ≡ 1 = rw e in
      contents-table_put z inv.ring (omega (arith, inv.table_cap, le-total table_unit _ s.pc i hi))

-- A deliverer in its critical section finds a pizza: the assertion of `deliv_main` holds, and the
-- pizza is the one that has lain longest: of all those put on the table so far, in the order of the
-- puts, the first ones have been taken, this is the next one, and the others stay on the table.
pub table_get_total :
    {cooks deliverers : ℕ} {s : System} {puts gets : List ℤ}
    → History cooks deliverers s puts gets
    → (i : ℕ) → i < cooks + deliverers
    → s.pc i ≡ taking
    → (z : ℤ) × (m : Kitchen) × (table_get s.kitchen ≡ some (z, m))
      × (contents s.kitchen ≡ z ∷ contents m)
      × (is_negative z ≡ false)
      × (puts ≡ gets ++ z ∷ contents m)
table_get_total {gets} h i hi e =
    let (z, m, done, split, good) = table_get-front (History-Reach h) i hi e in
    (z, m, done, split, good, History-contents h ∙ ap (λ q. gets ++ q) split)
