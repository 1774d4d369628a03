-- ===== src/Pizzeria/Semaphores.antt =====
-- lab7/main.c: the eight functions that guard the critical sections, as lists of semaphore
-- operations. The POSIX build makes the operations of a list one by one, the System V build hands
-- the list to one `semop`, which makes all of them at once or waits.
use sys_opy.Common.{
  ℕ, ◌+◌, ◌-◌, ◌<◌, ◌≡◌, if◌then◌else◌, ltb, Option, none, some, List, [], ◌∷◌, arith,
}
use sys_opy.Pizzeria.{Kitchen}

-- `enum semaphores`.
pub data Semaphore : Type 0 where
  oven_lock oven_capacity table_lock table_capacity table_available : Semaphore

-- `sem_wait` and `sem_post`, or `sem_op` -1 and 1.
pub data Op : Type 0 where
  down : Semaphore → Op
  up : Semaphore → Op

abbrev pub value : Semaphore → Kitchen → ℕ
value oven_lock m = m.oven_lk
value oven_capacity m = m.oven_cap
value table_lock m = m.table_lk
value table_capacity m = m.table_cap
value table_available m = m.table_avail

abbrev pub set_value : Semaphore → ℕ → Kitchen → Kitchen
set_value oven_lock v m = record m { oven_lk = v }
set_value oven_capacity v m = record m { oven_cap = v }
set_value table_lock v m = record m { table_lk = v }
set_value table_capacity v m = record m { table_cap = v }
set_value table_available v m = record m { table_avail = v }

-- `none`: the operation has to wait.
unfoldable pub apply_op : Op → Kitchen → Option Kitchen
apply_op (down x) m = if ltb 0 (value x m) then some (set_value x (value x m - 1) m) else none
apply_op (up x) m = some (set_value x (value x m + 1) m)

-- All operations of a list with nothing in between; `none` if one would wait.
unfoldable pub semop : List Op → Kitchen → Option Kitchen
unfolding apply_op
semop [] m = some m
semop (op ∷ ops) m = elim (apply_op op m) [ none ↦ none | some m' ↦ semop ops m' ]

abbrev pub oven_before_insert : List Op
oven_before_insert = down oven_capacity ∷ down oven_lock ∷ []

abbrev pub oven_after_insert : List Op
oven_after_insert = up oven_lock ∷ []

abbrev pub oven_before_remove : List Op
oven_before_remove = down oven_lock ∷ []

abbrev pub oven_after_remove : List Op
oven_after_remove = up oven_capacity ∷ up oven_lock ∷ []

abbrev pub table_before_put : List Op
table_before_put = down table_capacity ∷ down table_lock ∷ []

abbrev pub table_after_put : List Op
table_after_put = up table_lock ∷ up table_available ∷ []

abbrev pub table_before_get : List Op
table_before_get = down table_available ∷ down table_lock ∷ []

abbrev pub table_after_get : List Op
table_after_get = up table_lock ∷ up table_capacity ∷ []

abbrev pub after_down : Semaphore → Kitchen → Kitchen
after_down x m = set_value x (value x m - 1) m

abbrev pub after_up : Semaphore → Kitchen → Kitchen
after_up x m = set_value x (value x m + 1) m

semop-nil : (m m' : Kitchen) → semop [] m ≡ some m' → m ≡ m'
unfolding semop
semop-nil m m' e = cc

-- An operation that does not wait has a positive value to take from.
semop-down :
    (x : Semaphore) (ops : List Op) (m m' : Kitchen)
    → semop (down x ∷ ops) m ≡ some m'
    → (0 < value x m) × (semop ops (after_down x m) ≡ some m')
unfolding semop
semop-down x ops m m' e = ground arith

pub down_one :
    (x : Semaphore) (m m' : Kitchen)
    → semop (down x ∷ []) m ≡ some m'
    → (0 < value x m) × (after_down x m ≡ m')
down_one x m m' e = let (p, f) = semop-down x [] m m' e in (p, semop-nil (after_down x m) m' f)

pub down_two :
    (x y : Semaphore) (m m' : Kitchen)
    → semop (down x ∷ down y ∷ []) m ≡ some m'
    → (0 < value x m) × (0 < value y (after_down x m)) × (after_down y (after_down x m) ≡ m')
down_two x y m m' e =
    let (p, f) = semop-down x (down y ∷ []) m m' e in
    let (q, g) = down_one y (after_down x m) m' f in (p, q, g)

pub up_one : (x : Semaphore) (m m' : Kitchen) → semop (up x ∷ []) m ≡ some m' → after_up x m ≡ m'
unfolding semop
up_one x m m' e = cc

pub up_two :
    (x y : Semaphore) (m m' : Kitchen)
    → semop (up x ∷ up y ∷ []) m ≡ some m'
    → after_up y (after_up x m) ≡ m'
unfolding semop
up_two x y m m' e = cc
