-- ===== src/Workshop.antt =====
-- lab9/main.c: Santa, ten elves and nine reindeer over one mutex, one condition variable and three
-- semaphores. A step of a thread is one operation on these, or the code of a critical section up to
-- the next; `none` says that the thread has to wait. The naps and reports change no shared state.
pub mod System
pub mod Invariant
pub mod Safety
mod Tests
use sys_opy.Common.{
  ℕ, ◌+◌, ◌-◌, Bool, true, false, ◌&&◌, if◌then◌else◌, ltb, leb, Option, none, some, List, [], ◌∷◌,
  set, replicate,
}

abbrev pub maxelf : ℕ
maxelf = 10

abbrev pub maxelfwait : ℕ
maxelfwait = 3

abbrev pub maxrein : ℕ
maxrein = 9

abbrev pub maxreinwait : ℕ
maxreinwait = 9

-- Where `santa_thread` stands, with the local `deliveries`.
pub data Santa : Type 0 where
  starting : Santa  -- before the mutex is locked
  checking : (deliveries : ℕ) → Santa  -- at the heads of the two loops, with the mutex
  asleep : (deliveries : ℕ) → Santa  -- in `pthread_cond_wait`, not yet signalled
  woken : (deliveries : ℕ) → Santa  -- in `pthread_cond_wait`, before the mutex is locked again
  delivering : (deliveries j : ℕ) → Santa  -- the loop that posts `reindeer_sem`
  solving : (deliveries j : ℕ) → Santa  -- the loop that posts `elf_sem`
  gone : Santa

-- Where an `elf_thread` stands.
pub data Elf : Type 0 where
  napping : Elf  -- before the wait for `elfslots_sem`
  holding : Elf  -- before the mutex is locked
  entering : Elf  -- the critical section
  counted : Elf  -- before the mutex is unlocked
  hoping : Elf  -- before the wait for `elf_sem`
  solved : Elf  -- before the post of `elfslots_sem`

-- Where a `reindeer_thread` stands.
pub data Reindeer : Type 0 where
  vacation : Reindeer  -- before the mutex is locked
  arriving : Reindeer  -- the critical section
  arrived : Reindeer  -- before the mutex is unlocked
  home : Reindeer  -- before the wait for `reindeer_sem`

-- `struct threadctx`, with Santa's place, which a signal changes. `lock` is 1 while the mutex is free.
pub record Shop : Type 0 where
  pub lock : ℕ
  pub reindeer_sem : ℕ
  pub elf_sem : ℕ
  pub elfslots_sem : ℕ
  pub reindeer : ℕ
  pub elves : ℕ
  pub elfids : List ℕ
  pub santa : Santa

pub init_ctx : Shop
init_ctx = record {
  lock = 1;
  reindeer_sem = 0;
  elf_sem = 0;
  elfslots_sem = maxelfwait;
  reindeer = 0;
  elves = 0;
  elfids = replicate maxelfwait 0;
  santa = starting;
}

-- `pthread_cond_signal`: it wakes Santa if she waits, and is lost if she does not.
pub signal : Shop → Shop
signal m = record m { santa = elim m.santa [ asleep d ↦ woken d | other ↦ other ] }

-- One step of `santa_thread`.
pub santa_step : Santa → Shop → Option Shop
santa_step starting m =
    if ltb 0 m.lock then some (record m { lock = m.lock - 1; santa = checking 0 }) else none
santa_step (checking d) m =
    if ltb d 3
    then if ltb m.reindeer maxreinwait && ltb m.elves maxelfwait
      then some (record m { lock = m.lock + 1; santa = asleep d })
      else if leb maxreinwait m.reindeer
      then some (record m { santa = delivering d 0 })
      else some (record m { santa = solving d 0 })
    else some (record m { lock = m.lock + 1; santa = gone })
santa_step (asleep d) m = none
santa_step (woken d) m =
    if ltb 0 m.lock then some (record m { lock = m.lock - 1; santa = checking d }) else none
santa_step (delivering d j) m =
    if ltb j maxreinwait
    then some (record m { reindeer_sem = m.reindeer_sem + 1; santa = delivering d (j + 1) })
    else some (record m { reindeer = 0; santa = checking (d + 1) })
santa_step (solving d j) m =
    if ltb j maxelfwait
    then some (record m { elf_sem = m.elf_sem + 1; santa = solving d (j + 1) })
    else some (record m { elves = 0; santa = checking d })
santa_step gone m = none

-- The critical section of `elf_thread`, by the thread `tid`.
pub enter : ℕ → Shop → Shop
unfolding signal
enter tid m =
    let m' : Shop = record m { elfids = set m.elfids m.elves tid; elves = m.elves + 1 } in
    if leb maxelfwait (m.elves + 1) then signal m' else m'

-- One step of `elf_thread`.
pub elf_step : ℕ → Elf → Shop → Option (Elf × Shop)
unfolding enter
elf_step tid napping m =
    if ltb 0 m.elfslots_sem
    then some (holding, record m { elfslots_sem = m.elfslots_sem - 1 })
    else none
elf_step tid holding m =
    if ltb 0 m.lock then some (entering, record m { lock = m.lock - 1 }) else none
elf_step tid entering m = some (counted, enter tid m)
elf_step tid counted m = some (hoping, record m { lock = m.lock + 1 })
elf_step tid hoping m =
    if ltb 0 m.elf_sem then some (solved, record m { elf_sem = m.elf_sem - 1 }) else none
elf_step tid solved m = some (napping, record m { elfslots_sem = m.elfslots_sem + 1 })

-- The critical section of `reindeer_thread`.
pub arrive : Shop → Shop
unfolding signal
arrive m =
    let m' : Shop = record m { reindeer = m.reindeer + 1 } in
    if leb maxreinwait (m.reindeer + 1) then signal m' else m'

-- One step of `reindeer_thread`.
pub reindeer_step : Reindeer → Shop → Option (Reindeer × Shop)
unfolding arrive
reindeer_step vacation m =
    if ltb 0 m.lock then some (arriving, record m { lock = m.lock - 1 }) else none
reindeer_step arriving m = some (arrived, arrive m)
reindeer_step arrived m = some (home, record m { lock = m.lock + 1 })
reindeer_step home m =
    if ltb 0 m.reindeer_sem
    then some (vacation, record m { reindeer_sem = m.reindeer_sem - 1 })
    else none
