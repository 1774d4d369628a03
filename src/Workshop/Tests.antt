-- ===== src/Workshop/Tests.antt =====
-- Runs of lab9/main.c, from the start of the program.
use sys_opy.Common.{ℕ, ℕ_discrete, ◌+◌, ◌<◌, ◌≤◌, ◌≡◌, ◌≢◌, refl, arith, some, length}
use sys_opy.Common.Family.{update, total}
use sys_opy.Workshop.{
  Shop, Elf, init_ctx, asleep, gone, maxelf, maxrein, maxelfwait, maxreinwait, santa_step, elf_step,
}
use sys_opy.Workshop.System.{System, santa_moves, elf_moves, start, Reach, here, next}
use sys_opy.Workshop.Invariant.{
  santa_inside, elf_inside, reindeer_inside, elf_waits, reindeer_waits,
}
use sys_opy.Workshop.Safety.{
  CanMove, one_inside, elfids_in_bounds, no_missed_wakeup, counters_bounded, some_thread_moves,
}

-- A reachable state.
abbrev Run : Type 0
Run = (s : System) × Reach s

abbrev santa_moved : (r : Run) {m : Shop} → santa_step r.0.shop.santa r.0.shop ≡ some m → Run
santa_moved r {m} e = (record (r.0) { shop = m }, next r.1 (santa_moves e))

abbrev elf_moved :
    (r : Run) (i : ℕ) {x : Elf} {m : Shop}
    → i < maxelf
    → elf_step i (r.0.elf i) r.0.shop ≡ some (x, m)
    → Run
elf_moved r i {x} {m} lt e =
    (record (r.0) { shop = m; elf = update r.0.elf i x }, next r.1 (elf_moves i lt e))

-- Santa waits.
abbrev waiting : Run
unfolding santa_step init_ctx ℕ_discrete
waiting = let r₁ : Run = santa_moved (start, here) refl in santa_moved r₁ refl

-- An elf is in its critical section.
abbrev inside : Run
unfolding santa_step elf_step init_ctx ℕ_discrete
inside = let r₁ : Run = elf_moved waiting 4 (omega arith) refl in elf_moved r₁ 4 (omega arith) refl

one_inside_example :
    santa_inside inside.0.shop.santa
      + total elf_inside maxelf inside.0.elf
      + total reindeer_inside maxrein inside.0.rein
    ≤ 1
unfolding santa_step elf_step init_ctx ℕ_discrete
one_inside_example = one_inside inside.1

elfids_in_bounds_example : inside.0.shop.elves < length inside.0.shop.elfids
unfolding santa_step elf_step init_ctx ℕ_discrete
elfids_in_bounds_example = elfids_in_bounds inside.1 4 (omega arith) refl

no_missed_wakeup_example :
    (waiting.0.shop.reindeer < maxreinwait) × (waiting.0.shop.elves < maxelfwait)
unfolding santa_step init_ctx ℕ_discrete
no_missed_wakeup_example = no_missed_wakeup waiting.1 0 refl

counters_bounded_example :
    (inside.0.shop.elves ≤ maxelfwait)
    × (inside.0.shop.reindeer ≤ maxreinwait)
    × (inside.0.shop.elf_sem ≤ total elf_waits maxelf inside.0.elf)
    × (inside.0.shop.reindeer_sem ≤ total reindeer_waits maxrein inside.0.rein)
unfolding santa_step elf_step init_ctx ℕ_discrete
counters_bounded_example = counters_bounded inside.1

not_gone : (d : ℕ) → asleep d ≢ gone
not_gone d e = cc

some_thread_moves_example : CanMove waiting.1
unfolding santa_step init_ctx ℕ_discrete
some_thread_moves_example = some_thread_moves waiting.1 (not_gone 0)
