-- ===== src/Pizzeria/Tests.antt =====
-- Runs of a cook and a deliverer of lab7/main.c, from the start of the program.
use sys_opy.Common.{ℕ, ℕ_discrete, ◌<◌, ◌≤◌, ◌≡◌, refl, arith, some, false, List, [], ◌∷◌, ◌++◌}
use sys_opy.Common.Family.{update}
use sys_opy.Common.Int.{ℤ}
use sys_opy.Pizzeria.{
  Kitchen, setup_shm, slots, is_negative, find_slot, oven_insert, oven_remove, table_put, table_get,
}
use sys_opy.Pizzeria.Process.{
  Pc, Move, System, start, Reach, inserting, put_by, taken_by, History, opened, later,
}
use sys_opy.Pizzeria.Queue.{History-Reach}
use sys_opy.Pizzeria.Oven.{occupied}
use sys_opy.Pizzeria.Table.{contents, AllPizzas}
use sys_opy.Pizzeria.Semaphores.{semop, apply_op}
use sys_opy.Pizzeria.SystemV.{Atomic, begin, after, choose, AtomicReach-Reach}
use sys_opy.Pizzeria.Safety.{capacity, oven_insert_total, table_get_total}
use sys_opy.Pizzeria.Progress.{CanMove, some_process_moves}

-- The number of the cook's process.
abbrev cook : ℕ
cook = 0

-- A state that one cook, process 0, and one deliverer, process 1, reach, with the pizzas put on the
-- table and those taken from it.
abbrev Run : Type 0
Run = (s : System) × (puts : List ℤ) × (gets : List ℤ) × History 1 1 s puts gets

abbrev reached : (r : Run) → Reach 1 1 r.0
reached r = History-Reach r.3

abbrev moved :
    (r : Run) (i : ℕ) {m : Kitchen} {p : Pc} → i < 2 → Move r.0.kitchen (r.0.pc i) m p → Run
moved r i {m} {p} lt mv = (
  record { kitchen = m; pc = update r.0.pc i p },
  r.1 ++ put_by mv,
  r.2 ++ taken_by mv,
  later r.3 i lt mv,
)

abbrev at_insert : Run
unfolding oven_insert find_slot oven_remove table_put table_get setup_shm ℕ_discrete
at_insert =
    let r₁ : Run = moved (start 1, [], [], opened) 0 (omega arith) (Move.prepare 3 (omega arith)) in
    let r₂ : Run = moved r₁ 0 (omega arith) (Move.wait_oven_cap (omega arith)) in
    moved r₂ 0 (omega arith) (Move.lock_insert (omega arith))

abbrev at_remove : Run
unfolding oven_insert find_slot oven_remove table_put table_get setup_shm ℕ_discrete
at_remove =
    let r₁ : Run = moved at_insert 0 (omega arith) (Move.insert refl) in
    let r₂ : Run = moved r₁ 0 (omega arith) Move.unlock_insert in
    moved r₂ 0 (omega arith) (Move.lock_remove (omega arith))

abbrev at_put : Run
unfolding oven_insert find_slot oven_remove table_put table_get setup_shm ℕ_discrete
at_put =
    let r₁ : Run = moved at_remove 0 (omega arith) Move.remove in
    let r₂ : Run = moved r₁ 0 (omega arith) Move.post_oven_cap in
    let r₃ : Run = moved r₂ 0 (omega arith) Move.unlock_remove in
    let r₄ : Run = moved r₃ 0 (omega arith) (Move.wait_table_cap (omega arith)) in
    moved r₄ 0 (omega arith) (Move.lock_put (omega arith))

abbrev at_get : Run
unfolding oven_insert find_slot oven_remove table_put table_get setup_shm ℕ_discrete
at_get =
    let r₁ : Run = moved at_put 0 (omega arith) Move.put in
    let r₂ : Run = moved r₁ 0 (omega arith) Move.unlock_put in
    let r₃ : Run = moved r₂ 0 (omega arith) Move.post_table_avail in
    let r₄ : Run = moved r₃ 1 (omega arith) (Move.wait_table_avail (omega arith)) in
    moved r₄ 1 (omega arith) (Move.lock_get (omega arith))

table_get_total_example :
    (z : ℤ) × (m : Kitchen) × (table_get at_get.0.kitchen ≡ some (z, m))
    × (contents at_get.0.kitchen ≡ z ∷ contents m)
    × (is_negative z ≡ false)
    × (at_get.1 ≡ at_get.2 ++ z ∷ contents m)
unfolding oven_insert find_slot oven_remove table_put table_get setup_shm ℕ_discrete
table_get_total_example = table_get_total at_get.3 1 (omega arith) refl

oven_insert_total_example :
    (slot : ℕ) × (m : Kitchen) × (oven_insert 3 at_insert.0.kitchen ≡ some (slot, m))
    × (slot < slots)
unfolding oven_insert find_slot oven_remove table_put table_get setup_shm ℕ_discrete
oven_insert_total_example = oven_insert_total (reached at_insert) 0 3 (omega arith) refl

capacity_example :
    (at_remove.0.kitchen.inoven ≡ occupied at_remove.0.kitchen.ovenslots)
    × (at_remove.0.kitchen.inoven ≤ slots)
    × (at_remove.0.kitchen.ontable ≤ slots)
    × AllPizzas (contents at_remove.0.kitchen)
unfolding oven_insert find_slot oven_remove table_put table_get setup_shm ℕ_discrete
capacity_example = capacity (reached at_remove)

some_process_moves_example : (i : ℕ) × (i < 2) × CanMove at_get.0 i
unfolding oven_insert find_slot oven_remove table_put table_get setup_shm ℕ_discrete
some_process_moves_example = some_process_moves (omega arith) (omega arith) (reached at_get)

abbrev atomic_state : System
atomic_state = record {
  kitchen = record setup_shm { oven_cap = 4; oven_lk = 0 };
  pc = update (update (start 1).pc 0 (Pc.prepared 3)) 0 (inserting 3);
}

AtomicReach-Reach_example : Reach 1 1 atomic_state
unfolding semop apply_op setup_shm ℕ_discrete
AtomicReach-Reach_example = AtomicReach-Reach {s = atomic_state} (
    after (after begin (choose 0 (omega arith) (Atomic.prepare 3 (omega arith))))
      (choose 0 (omega arith) (Atomic.before_insert refl)))
