-- ===== src/Pizzeria/Progress.antt =====
-- lab7/main.c: which process of `cook_main` or `deliv_main` can make its next move.
use sys_opy.Common.{ℕ, ◌+◌, ◌<◌, ◌≡◌, refl, ◌∙◌, inl, inr, Bool, true, false, ltb, arith, dec_lt}
use sys_opy.Common.Family.{total-cases}
use sys_opy.Pizzeria.{Kitchen}
use sys_opy.Pizzeria.Process.{
  Pc, Move, prepare, wait_oven_cap, lock_insert, insert, unlock_insert, lock_remove, remove,
  post_oven_cap, unlock_remove, wait_table_cap, lock_put, put, unlock_put, post_table_avail,
  wait_table_avail, lock_get, get, unlock_get, post_table_cap, deliver, System, pick, Reach, here,
  next, idle, prepared, admitted, inserting, inserted, baking, removing, removed, released,
  carrying, serving, putting, placed, announcing, waiting, called, taking, taken, leaving, driving,
}
use sys_opy.Pizzeria.Invariant.{
  at_oven, oven_unit, at_table, table_unit, avail_unit, Inv, Reach-Inv,
}
use sys_opy.Pizzeria.Safety.{oven_insert_total, table_get-front}

-- The points of `cook_main`.
abbrev is_cook : Pc → Bool
is_cook waiting = false
is_cook called = false
is_cook taking = false
is_cook (taken _) = false
is_cook (leaving _) = false
is_cook (driving _) = false
is_cook _ = true

Move-is_cook : {m m' : Kitchen} {p p' : Pc} → Move m p m' p' → is_cook p ≡ is_cook p'
Move-is_cook (prepare t lt) = refl
Move-is_cook mv = refl

Reach-is_cook :
    {cooks deliverers : ℕ} {s : System}
    → Reach cooks deliverers s
    → (i : ℕ) → is_cook (s.pc i) ≡ ltb i cooks
Reach-is_cook here i = ground arith
Reach-is_cook (next r (pick j lt mv)) i = ground (arith, Reach-is_cook r i, Move-is_cook mv)

-- Process `i` can make a move.
abbrev pub CanMove : System → ℕ → Type 0
CanMove s i = (m : Kitchen) × (p : Pc) × Move s.kitchen (s.pc i) m p

module _ {cooks deliverers : ℕ} {s : System} (r : Reach cooks deliverers s) (i : ℕ)
    (hi : i < cooks + deliverers) where
  -- A process inside a critical section, or at its end, never waits.
  at_oven_moves :
      (p : Pc) → s.pc i ≡ p → 0 < at_oven p → (m : Kitchen) × (q : Pc) × Move s.kitchen p m q
  at_oven_moves (inserting t) e h =
      let (slot, m, done, _) = oven_insert_total r i t hi e in (m, inserted t slot, insert done)
  at_oven_moves (inserted t slot) e h = (_, _, unlock_insert)
  at_oven_moves (removing t slot) e h = (_, _, remove)
  at_oven_moves (removed z) e h = (_, _, post_oven_cap)
  at_oven_moves (released z) e h = (_, _, unlock_remove)
  at_oven_moves p e h = absurd (omega arith)

  at_table_moves :
      (p : Pc) → s.pc i ≡ p → 0 < at_table p → (m : Kitchen) × (q : Pc) × Move s.kitchen p m q
  at_table_moves (putting z) e h = (_, _, put)
  at_table_moves placed e h = (_, _, unlock_put)
  at_table_moves taking e h =
      let (z, m, done, _, _) = table_get-front r i hi e in (m, taken z, get done)
  at_table_moves (taken z) e h = (_, _, unlock_get)
  at_table_moves p e h = absurd (omega arith)

  -- With the oven's lock free, a process that holds a place in the oven moves on.
  oven_unit_moves :
      0 < s.kitchen.oven_lk
      → (p : Pc) → s.pc i ≡ p
      → 0 < oven_unit p
      → (m : Kitchen) × (q : Pc) × Move s.kitchen p m q
  oven_unit_moves free (admitted t) e h = (_, _, lock_insert free)
  oven_unit_moves free (baking t slot) e h = (_, _, lock_remove free)
  oven_unit_moves free (inserting t) e h = at_oven_moves (inserting t) e (omega arith)
  oven_unit_moves free (inserted t slot) e h = (_, _, unlock_insert)
  oven_unit_moves free (removing t slot) e h = (_, _, remove)
  oven_unit_moves free (removed z) e h = (_, _, post_oven_cap)
  oven_unit_moves free p e h = absurd (omega arith)

  -- With the table's lock free, so does one that holds a place or a pizza at the table.
  table_unit_moves :
      0 < s.kitchen.table_lk
      → (p : Pc) → s.pc i ≡ p
      → 0 < table_unit p + avail_unit p
      → (m : Kitchen) × (q : Pc) × Move s.kitchen p m q
  table_unit_moves free (serving z) e h = (_, _, lock_put free)
  table_unit_moves free (putting z) e h = (_, _, put)
  table_unit_moves free (taken z) e h = (_, _, unlock_get)
  table_unit_moves free (leaving z) e h = (_, _, post_table_cap)
  table_unit_moves free placed e h = (_, _, unlock_put)
  table_unit_moves free announcing e h = (_, _, post_table_avail)
  table_unit_moves free called e h = (_, _, lock_get free)
  table_unit_moves free taking e h = at_table_moves taking e (omega arith)
  table_unit_moves free p e h = absurd (omega arith)

  -- With all units free, a cook moves unless the table is full, a deliverer unless it is empty.
  cook_moves :
      0 < s.kitchen.oven_lk
      → 0 < s.kitchen.oven_cap
      → 0 < s.kitchen.table_lk
      → 0 < s.kitchen.table_cap
      → (p : Pc) → s.pc i ≡ p
      → is_cook p ≡ true
      → (m : Kitchen) × (q : Pc) × Move s.kitchen p m q
  cook_moves a b c d idle e h = (_, _, prepare 0 (omega arith))
  cook_moves a b c d (prepared t) e h = (_, _, wait_oven_cap b)
  cook_moves a b c d (carrying z) e h = (_, _, wait_table_cap d)
  cook_moves a b c d (serving z) e h = (_, _, lock_put c)
  cook_moves a b c d (putting z) e h = (_, _, put)
  cook_moves a b c d placed e h = (_, _, unlock_put)
  cook_moves a b c d announcing e h = (_, _, post_table_avail)
  cook_moves a b c d (released z) e h = (_, _, unlock_remove)
  cook_moves a b c d (admitted t) e h = (_, _, lock_insert a)
  cook_moves a b c d (baking t slot) e h = (_, _, lock_remove a)
  cook_moves a b c d (inserting t) e h = at_oven_moves (inserting t) e (omega arith)
  cook_moves a b c d (inserted t slot) e h = (_, _, unlock_insert)
  cook_moves a b c d (removing t slot) e h = (_, _, remove)
  cook_moves a b c d (removed z) e h = (_, _, post_oven_cap)
  cook_moves a b c d p e h = cc

  deliverer_moves :
      0 < s.kitchen.table_lk
      → 0 < s.kitchen.table_avail
      → (p : Pc) → s.pc i ≡ p
      → is_cook p ≡ false
      → (m : Kitchen) × (q : Pc) × Move s.kitchen p m q
  deliverer_moves c d waiting e h = (_, _, wait_table_avail d)
  deliverer_moves c d called e h = (_, _, lock_get c)
  deliverer_moves c d taking e h = at_table_moves taking e (omega arith)
  deliverer_moves c d (taken z) e h = (_, _, unlock_get)
  deliverer_moves c d (leaving z) e h = (_, _, post_table_cap)
  deliverer_moves c d (driving z) e h = (_, _, deliver)
  deliverer_moves c d p e h = cc

-- With at least one cook and at least one deliverer, in every reachable state some process can make
-- a move.
pub some_process_moves :
    {cooks deliverers : ℕ} {s : System}
    → 0 < cooks
    → 0 < deliverers
    → Reach cooks deliverers s
    → (i : ℕ) × (i < cooks + deliverers) × CanMove s i
some_process_moves {cooks} {deliverers} {s} hc hd r = elim (total-cases at_oven n s.pc) [
  | inr (i, hi, h) ↦ (i, hi, at_oven_moves r i hi (s.pc i) refl h)
  | inl ovens ↦ elim (total-cases at_table n s.pc) [
    | inr (i, hi, h) ↦ (i, hi, at_table_moves r i hi (s.pc i) refl h)
    | inl tables ↦ elim (total-cases oven_unit n s.pc) [
      | inr (i, hi, h) ↦
          (i, hi, oven_unit_moves r i hi (omega (arith, inv.oven_lk)) (s.pc i) refl h)
      | inl units ↦ elim (total-cases table_unit n s.pc) [
        | inr (i, hi, h) ↦ (
          i,
          hi,
          table_unit_moves r i hi (omega (arith, inv.table_lk)) (s.pc i) refl (omega arith),
        )
        | inl places ↦ elim (total-cases avail_unit n s.pc) [
          | inr (i, hi, h) ↦ (
            i,
            hi,
            table_unit_moves r i hi (omega (arith, inv.table_lk)) (s.pc i) refl (omega arith),
          )
          | inl news ↦ elim (dec_lt 0 s.kitchen.table_cap) [
            | yes room ↦ (
              0,
              omega arith,
              cook_moves r 0 (omega arith) (omega (arith, inv.oven_lk))
                  (omega (arith, inv.oven_cap)) (omega (arith, inv.table_lk)) room (s.pc 0) refl
                  (Reach-is_cook r 0 ∙ first_cook),
            )
            | no full ↦ (
              cooks,
              omega arith,
              deliverer_moves r cooks (omega arith) (omega (arith, inv.table_lk))
                  (omega (arith, inv.table_cap, inv.table_avail)) (s.pc cooks) refl
                  (Reach-is_cook r cooks ∙ first_deliverer),
            )
          ]
        ]
      ]
    ]
  ]
]
  where
    n : ℕ
    n = cooks + deliverers

    inv : Inv n s.kitchen s.pc
    inv = Reach-Inv r

    first_cook : ltb 0 cooks ≡ true
    first_cook = ground arith

    first_deliverer : ltb cooks cooks ≡ false
    first_deliverer = ground arith
