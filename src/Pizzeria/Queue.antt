-- ===== src/Pizzeria/Queue.antt =====
-- lab7/main.c: the pizzas that have been put on the table by `cook_main` and taken from it by
-- `deliv_main`, in their order.
use sys_opy.Common.{
  sym, ◌∙◌, ap, ℕ, ◌+◌, ◌<◌, ◌≡◌, refl, List, ◌∷◌, ◌++◌, append-nil, append_assoc, arith, some,
}
use sys_opy.Common.Int.{ℤ}
use sys_opy.Common.Family.{le-total}
use sys_opy.Pizzeria.{Kitchen, slots, setup_shm, oven_insert, oven_remove, table_get}
use sys_opy.Pizzeria.Process.{
  Pc, Move, put, get, insert, remove, System, pick, Reach, here, next, put_by, taken_by, History,
  opened, later,
}
use sys_opy.Pizzeria.Table.{
  contents, IsRing, contents-table_put, contents-cleared, table_get-cleared,
}
use sys_opy.Pizzeria.Invariant.{table_unit, avail_unit, Inv, Reach-Inv}

oven_insert-contents :
    (t : ℕ) (m : Kitchen) (slot : ℕ) (m' : Kitchen)
    → oven_insert t m ≡ some (slot, m')
    → contents m' ≡ contents m
unfolding oven_insert
oven_insert-contents t m slot m' e = ground arith

oven_remove-contents : (slot : ℕ) (m : Kitchen) → contents (oven_remove slot m).1 ≡ contents m
unfolding oven_remove
oven_remove-contents slot m = refl

table_get-contents :
    (m : Kitchen) (z : ℤ) (m' : Kitchen)
    → IsRing m
    → 0 < m.ontable
    → table_get m ≡ some (z, m')
    → z ∷ contents m' ≡ contents m
table_get-contents m z m' ring lying e =
    let (same, pizza, good) = table_get-cleared m z m' e in
    rw (same, pizza) (sym (contents-cleared ring lying))

-- A move takes from the front of the table's queue and puts at its end.
Move-contents :
    {m m' : Kitchen} {p p' : Pc} (mv : Move m p m' p')
    → IsRing m
    → (0 < table_unit p → m.ontable < slots)
    → (0 < avail_unit p → 0 < m.ontable)
    → taken_by mv ++ contents m' ≡ contents m ++ put_by mv
unfolding put_by taken_by
Move-contents {m} (put {z}) ring free lying = contents-table_put z ring (free (omega arith))
Move-contents {m} (get {z} {m'} e) ring free lying =
    table_get-contents m z m' ring (lying (omega arith)) e ∙ sym (append-nil (contents m))
Move-contents {m} (insert {t} {slot} {m'} e) ring free lying =
    oven_insert-contents t m slot m' e ∙ sym (append-nil (contents m))
Move-contents {m} (remove {t} {slot}) ring free lying =
    oven_remove-contents slot m ∙ sym (append-nil (contents m))
Move-contents {m} _ ring free lying = sym (append-nil (contents m))

module _ {cooks deliverers : ℕ} where
  pub History-Reach :
      {s : System} {puts gets : List ℤ}
      → History cooks deliverers s puts gets
      → Reach cooks deliverers s
  History-Reach opened = here
  History-Reach (later h i lt mv) = next (History-Reach h) (pick i lt mv)

  -- What has been put on the table is what has been taken from it, and then what lies there.
  pub History-contents :
      {s : System} {puts gets : List ℤ}
      → History cooks deliverers s puts gets
      → puts ≡ gets ++ contents s.kitchen
  unfolding setup_shm
  History-contents opened = refl
  History-contents (later {s} {puts} {gets} h i {m} {p} lt mv) =
      let inv : Inv (cooks + deliverers) s.kitchen s.pc = Reach-Inv (History-Reach h) in
      let moved : taken_by mv ++ contents m ≡ contents s.kitchen ++ put_by mv =
        Move-contents mv inv.ring
          (λ (u : 0 < table_unit (s.pc i)).
            omega (arith, inv.table_cap, u, le-total table_unit _ s.pc i lt))
          (λ (u : 0 < avail_unit (s.pc i)).
            omega (arith, inv.table_avail, u, le-total avail_unit _ s.pc i lt)) in
      ap (λ q. q ++ put_by mv) (History-contents h)
      ∙ append_assoc gets (contents s.kitchen) (put_by mv)
      ∙ ap (λ q. gets ++ q) (sym moved)
      ∙ sym (append_assoc gets (taken_by mv) (contents m))
