-- ===== src/Pizzeria/SystemV.antt =====
-- lab7/main.c: the build without POSIX, where each of the eight functions is one `semop`. All that
-- it reaches the POSIX build reaches too, with the operations of each `semop` made in a row.
use sys_opy.Common.{ℕ, ◌+◌, ◌<◌, ◌≡◌, sym, some, arith}
use mathlib.Core.Path.{subst, fun_ext}
use sys_opy.Common.Int.{ℤ}
use sys_opy.Common.Family.{update}
use sys_opy.Pizzeria.{Kitchen, oven_insert, oven_remove, table_put, table_get}
use sys_opy.Pizzeria.Process.{
  Pc, Move, wait_oven_cap, lock_insert, unlock_insert, lock_remove, post_oven_cap, unlock_remove,
  wait_table_cap, lock_put, unlock_put, post_table_avail, wait_table_avail, lock_get, unlock_get,
  post_table_cap, System, pick, start, Reach, here, next, idle, prepared, inserting, inserted,
  baking, removing, removed, carrying, putting, placed, waiting, taking, taken, driving,
}
use sys_opy.Pizzeria.Semaphores.{
  semop, down_one, down_two, up_one, up_two, oven_lock, table_lock, oven_capacity, table_capacity,
  table_available, oven_before_insert, oven_after_insert, oven_before_remove, oven_after_remove,
  table_before_put, table_after_put, table_before_get, table_after_get,
}

-- The moves of the System V build: `cook_main` and `deliv_main` with each `semop` in one move.
pub data Atomic (m : Kitchen) : Pc → Kitchen → Pc → Type 0 where
  prepare : (type : ℕ) → type < 10 → Atomic m idle m (prepared type)
  before_insert :
      {t : ℕ} {m' : Kitchen}
      → semop oven_before_insert m ≡ some m'
      → Atomic m (prepared t) m' (inserting t)
  insert :
      {t slot : ℕ} {m' : Kitchen}
      → oven_insert t m ≡ some (slot, m')
      → Atomic m (inserting t) m' (inserted t slot)
  after_insert :
      {t slot : ℕ} {m' : Kitchen}
      → semop oven_after_insert m ≡ some m'
      → Atomic m (inserted t slot) m' (baking t slot)
  before_remove :
      {t slot : ℕ} {m' : Kitchen}
      → semop oven_before_remove m ≡ some m'
      → Atomic m (baking t slot) m' (removing t slot)
  remove :
      {t slot : ℕ}
      → Atomic m (removing t slot) (oven_remove slot m).1 (removed (oven_remove slot m).0)
  after_remove :
      {z : ℤ} {m' : Kitchen}
      → semop oven_after_remove m ≡ some m'
      → Atomic m (removed z) m' (carrying z)
  before_put :
      {z : ℤ} {m' : Kitchen}
      → semop table_before_put m ≡ some m'
      → Atomic m (carrying z) m' (putting z)
  put : {z : ℤ} → Atomic m (putting z) (table_put z m) placed
  after_put : {m' : Kitchen} → semop table_after_put m ≡ some m' → Atomic m placed m' idle
  before_get : {m' : Kitchen} → semop table_before_get m ≡ some m' → Atomic m waiting m' taking
  get : {z : ℤ} {m' : Kitchen} → table_get m ≡ some (z, m') → Atomic m taking m' (taken z)
  after_get :
      {z : ℤ} {m' : Kitchen} → semop table_after_get m ≡ some m' → Atomic m (taken z) m' (driving z)
  deliver : {z : ℤ} → Atomic m (driving z) m waiting

pub data AtomicStep (n : ℕ) (s : System) : System → Type 0 where
  choose :
      (i : ℕ) {m : Kitchen} {p : Pc}
      → i < n
      → Atomic s.kitchen (s.pc i) m p
      → AtomicStep n s (record { kitchen = m; pc = update s.pc i p })

pub data AtomicReach (cooks deliverers : ℕ) : System → Type 0 where
  begin : AtomicReach cooks deliverers (start cooks)
  after :
      {s t : System}
      → AtomicReach cooks deliverers s
      → AtomicStep (cooks + deliverers) s t
      → AtomicReach cooks deliverers t

-- One or two moves of the POSIX build by one process.
data Moves (m : Kitchen) (p : Pc) (m' : Kitchen) (p' : Pc) : Type 0 where
  one : Move m p m' p' → Moves m p m' p'
  two : {k : Kitchen} {q : Pc} → Move m p k q → Move k q m' p' → Moves m p m' p'

ending : {m k m' : Kitchen} {p p' : Pc} → k ≡ m' → Moves m p k p' → Moves m p m' p'
ending {m} {p} {p'} e mv = subst (λ x. Moves m p x p') e mv

Atomic-Moves : {m m' : Kitchen} {p p' : Pc} → Atomic m p m' p' → Moves m p m' p'
Atomic-Moves (prepare t lt) = one (Move.prepare t lt)
Atomic-Moves (before_insert {m'} e) =
    let (p, q, same) = down_two oven_capacity oven_lock _ m' e in
    ending same (two (wait_oven_cap p) (lock_insert q))
Atomic-Moves (insert e) = one (Move.insert e)
Atomic-Moves (after_insert {m'} e) = ending (up_one oven_lock _ m' e) (one unlock_insert)
Atomic-Moves (before_remove {m'} e) =
    let (p, same) = down_one oven_lock _ m' e in ending same (one (lock_remove p))
Atomic-Moves remove = one Move.remove
Atomic-Moves (after_remove {m'} e) =
    ending (up_two oven_capacity oven_lock _ m' e) (two post_oven_cap unlock_remove)
Atomic-Moves (before_put {m'} e) =
    let (p, q, same) = down_two table_capacity table_lock _ m' e in
    ending same (two (wait_table_cap p) (lock_put q))
Atomic-Moves put = one Move.put
Atomic-Moves (after_put {m'} e) =
    ending (up_two table_lock table_available _ m' e) (two unlock_put post_table_avail)
Atomic-Moves (before_get {m'} e) =
    let (p, q, same) = down_two table_available table_lock _ m' e in
    ending same (two (wait_table_avail p) (lock_get q))
Atomic-Moves (get e) = one (Move.get e)
Atomic-Moves (after_get {m'} e) =
    ending (up_two table_lock table_capacity _ m' e) (two unlock_get post_table_cap)
Atomic-Moves deliver = one Move.deliver

update_twice : (pc : ℕ → Pc) (i : ℕ) (p q : Pc) → update (update pc i p) i q ≡ update pc i q
update_twice pc i p q = fun_ext (λ j. ground arith)

update_self : (pc : ℕ → Pc) (i : ℕ) (p : Pc) → update pc i p i ≡ p
update_self pc i p = ground arith

-- Whatever the System V build can reach, the POSIX build can reach.
pub AtomicReach-Reach :
    {cooks deliverers : ℕ} {s : System} → AtomicReach cooks deliverers s → Reach cooks deliverers s
AtomicReach-Reach begin = here
AtomicReach-Reach {cooks} {deliverers} (after {s} r (choose i {m} {p} lt a)) =
    go (AtomicReach-Reach r) (Atomic-Moves a)
  where
    go :
        Reach cooks deliverers s
        → Moves s.kitchen (s.pc i) m p
        → Reach cooks deliverers (record { kitchen = m; pc = update s.pc i p })
    go reach (one mv) = next reach (pick i lt mv)
    go reach (two {k} {q} mv mv') =
        subst (λ f. Reach cooks deliverers (record { kitchen = m; pc = f }))
          (update_twice s.pc i q p)
          (next (next reach (pick i lt mv))
            (pick i lt (subst (λ x. Move k x m p) (sym (update_self s.pc i q)) mv')))
