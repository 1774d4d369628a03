-- ===== src/Workshop/System.antt =====
-- lab9/main.c: `main`'s threads, interleaved in any order.
use sys_opy.Common.{ℕ, ◌<◌, ◌≡◌, some}
use sys_opy.Common.Family.{update}
use sys_opy.Workshop.{
  Shop, Santa, Elf, Reindeer, maxelf, maxrein, init_ctx, santa_step, elf_step, reindeer_step,
}

-- An index past the number of threads names none: it never moves.
pub record System : Type 0 where
  pub shop : Shop
  pub elf : ℕ → Elf
  pub rein : ℕ → Reindeer

pub data Step (s : System) : System → Type 0 where
  santa_moves :
      {m : Shop} → santa_step s.shop.santa s.shop ≡ some m → Step s (record s { shop = m })
  -- `pthread_cond_wait` may return without a signal.
  santa_wakes :
      (d : ℕ)
      → s.shop.santa ≡ Santa.asleep d
      → Step s (record s { shop = record (s.shop) { santa = Santa.woken d } })
  elf_moves :
      (i : ℕ) {e : Elf} {m : Shop}
      → i < maxelf
      → elf_step i (s.elf i) s.shop ≡ some (e, m)
      → Step s (record s { shop = m; elf = update s.elf i e })
  reindeer_moves :
      (i : ℕ) {r : Reindeer} {m : Shop}
      → i < maxrein
      → reindeer_step (s.rein i) s.shop ≡ some (r, m)
      → Step s (record s { shop = m; rein = update s.rein i r })

abbrev pub start : System
start = record { shop = init_ctx; elf = λ _. Elf.napping; rein = λ _. Reindeer.vacation }

pub data Reach : System → Type 0 where
  here : Reach start
  next : {s t : System} → Reach s → Step s t → Reach t
