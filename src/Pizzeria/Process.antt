-- ===== src/Pizzeria/Process.antt =====
-- lab7/main.c: `cook_main` and `deliv_main` as a program counter with its live locals, one
-- semaphore operation of the POSIX build or one critical section to a move, and the interleavings
-- of any number of processes.
use sys_opy.Common.{ℕ, ◌+◌, ◌-◌, ◌<◌, ◌≡◌, some, List, [], ◌∷◌, ◌++◌, ltb, if◌then◌else◌}
use sys_opy.Common.Int.{ℤ}
use sys_opy.Common.Family.{update}
use sys_opy.Pizzeria.{Kitchen, setup_shm, oven_insert, oven_remove, table_put, table_get}

-- Where a process stands. The first twelve points are the cook's loop, the others the deliverer's.
pub data Pc : Type 0 where
  idle : Pc  -- head of the loop
  prepared : (type : ℕ) → Pc  -- before the wait for OVEN_CAP
  admitted : (type : ℕ) → Pc  -- before the wait for OVEN_LK
  inserting : (type : ℕ) → Pc
  inserted : (type slot : ℕ) → Pc  -- before the post of OVEN_LK
  baking : (type slot : ℕ) → Pc  -- before the wait for OVEN_LK
  removing : (type slot : ℕ) → Pc
  removed : (cooked : ℤ) → Pc  -- before the post of OVEN_CAP
  released : (cooked : ℤ) → Pc  -- before the post of OVEN_LK
  carrying : (cooked : ℤ) → Pc  -- before the wait for TABLE_CAP
  serving : (cooked : ℤ) → Pc  -- before the wait for TABLE_LK
  putting : (cooked : ℤ) → Pc
  placed : Pc  -- before the post of TABLE_LK
  announcing : Pc  -- before the post of TABLE_AVAIL
  waiting : Pc  -- head of the loop: before the wait for TABLE_AVAIL
  called : Pc  -- before the wait for TABLE_LK
  taking : Pc
  taken : (pizza : ℤ) → Pc  -- before the post of TABLE_LK
  leaving : (pizza : ℤ) → Pc  -- before the post of TABLE_CAP
  driving : (pizza : ℤ) → Pc  -- the two naps of the delivery

pub data Move (m : Kitchen) : Pc → Kitchen → Pc → Type 0 where
  prepare : (type : ℕ) → type < 10 → Move m idle m (prepared type)
  wait_oven_cap :
      {t : ℕ}
      → 0 < m.oven_cap
      → Move m (prepared t) (record m { oven_cap = m.oven_cap - 1 }) (admitted t)
  lock_insert :
      {t : ℕ}
      → 0 < m.oven_lk
      → Move m (admitted t) (record m { oven_lk = m.oven_lk - 1 }) (inserting t)
  insert :
      {t slot : ℕ} {m' : Kitchen}
      → oven_insert t m ≡ some (slot, m')
      → Move m (inserting t) m' (inserted t slot)
  unlock_insert :
      {t slot : ℕ} → Move m (inserted t slot) (record m { oven_lk = m.oven_lk + 1 }) (baking t slot)
  lock_remove :
      {t slot : ℕ}
      → 0 < m.oven_lk
      → Move m (baking t slot) (record m { oven_lk = m.oven_lk - 1 }) (removing t slot)
  remove :
      {t slot : ℕ}
      → Move m (removing t slot) (oven_remove slot m).1 (removed (oven_remove slot m).0)
  post_oven_cap : {z : ℤ} → Move m (removed z) (record m { oven_cap = m.oven_cap + 1 }) (released z)
  unlock_remove : {z : ℤ} → Move m (released z) (record m { oven_lk = m.oven_lk + 1 }) (carrying z)
  wait_table_cap :
      {z : ℤ}
      → 0 < m.table_cap
      → Move m (carrying z) (record m { table_cap = m.table_cap - 1 }) (serving z)
  lock_put :
      {z : ℤ}
      → 0 < m.table_lk
      → Move m (serving z) (record m { table_lk = m.table_lk - 1 }) (putting z)
  put : {z : ℤ} → Move m (putting z) (table_put z m) placed
  unlock_put : Move m placed (record m { table_lk = m.table_lk + 1 }) announcing
  post_table_avail : Move m announcing (record m { table_avail = m.table_avail + 1 }) idle
  wait_table_avail :
      0 < m.table_avail → Move m waiting (record m { table_avail = m.table_avail - 1 }) called
  lock_get : 0 < m.table_lk → Move m called (record m { table_lk = m.table_lk - 1 }) taking
  get : {z : ℤ} {m' : Kitchen} → table_get m ≡ some (z, m') → Move m taking m' (taken z)
  unlock_get : {z : ℤ} → Move m (taken z) (record m { table_lk = m.table_lk + 1 }) (leaving z)
  post_table_cap :
      {z : ℤ} → Move m (leaving z) (record m { table_cap = m.table_cap + 1 }) (driving z)
  deliver : {z : ℤ} → Move m (driving z) m waiting

-- The pizza that a move puts on the table, and the one that it takes from there.
unfoldable pub put_by : {m m' : Kitchen} {p p' : Pc} → Move m p m' p' → List ℤ
put_by (put {z}) = z ∷ []
put_by other = []

unfoldable pub taken_by : {m m' : Kitchen} {p p' : Pc} → Move m p m' p' → List ℤ
taken_by (get {z} e) = z ∷ []
taken_by other = []

-- An index from the number of processes on names no process: it never moves.
pub record System : Type 0 where
  pub kitchen : Kitchen
  pub pc : ℕ → Pc

pub data Step (n : ℕ) (s : System) : System → Type 0 where
  pick :
      (i : ℕ) {m : Kitchen} {p : Pc}
      → i < n
      → Move s.kitchen (s.pc i) m p
      → Step n s (record { kitchen = m; pc = update s.pc i p })

-- `main` sets the shared memory up and starts `cooks` cooks, then the deliverers.
abbrev pub start : ℕ → System
start cooks = record { kitchen = setup_shm; pc = λ i. if ltb i cooks then idle else waiting }

-- What `cooks` cooks and `deliverers` deliverers can reach.
pub data Reach (cooks deliverers : ℕ) : System → Type 0 where
  here : Reach cooks deliverers (start cooks)
  next :
      {s t : System}
      → Reach cooks deliverers s
      → Step (cooks + deliverers) s t
      → Reach cooks deliverers t

-- The same, with the pizzas that have been put on the table and those that have been taken from it, the
-- first ones first.
pub data History (cooks deliverers : ℕ) : System → List ℤ → List ℤ → Type 0 where
  opened : History cooks deliverers (start cooks) [] []
  later :
      {s : System} {puts gets : List ℤ}
      → History cooks deliverers s puts gets
      → (i : ℕ) {m : Kitchen} {p : Pc} → i < cooks + deliverers
      → (mv : Move s.kitchen (s.pc i) m p)
      → History cooks deliverers
          (record { kitchen = m; pc = update s.pc i p })
          (puts ++ put_by mv)
          (gets ++ taken_by mv)
