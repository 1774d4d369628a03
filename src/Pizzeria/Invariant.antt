-- ===== src/Pizzeria/Invariant.antt =====
-- lab7/main.c: what holds between the processes of `cook_main` and `deliv_main` and the kitchen.
-- Each semaphore's value and the processes that hold one of its units make up a constant.
mod Counts
mod Moves
pub use Counts.*
use Moves.{Move-Inv}
use sys_opy.Common.{
  ℕ, ◌+◌, ◌<◌, ◌≡◌, refl, none, if◌then◌else◌, ltb, List, arith, Bool-cases, inl, inr,
}
use sys_opy.Common.Family.{total, total-eq-zero}
use sys_opy.Pizzeria.{Kitchen, setup_shm}
use sys_opy.Pizzeria.Process.{Pc, System, Step, pick, start, Reach, here, next}

total-start :
    (w : Pc → ℕ) (n cooks : ℕ) → w Pc.idle ≡ 0 → w Pc.waiting ≡ 0 → total w n (start cooks).pc ≡ 0
total-start w n cooks a b = total-eq-zero w n _ (λ i. ground arith)

Inv-start : (n cooks : ℕ) → Inv n (start cooks).kitchen (start cooks).pc
unfolding setup_shm
Inv-start n cooks = record {
  ring = record { width = refl; tail_in = omega arith; head_at = refl; fits = omega arith };
  width = refl;
  oven_lk = omega (arith, total-start at_oven n cooks refl refl);
  oven_cap = omega (arith, total-start oven_unit n cooks refl refl);
  table_lk = omega (arith, total-start at_table n cooks refl refl);
  table_cap = omega (arith, total-start table_unit n cooks refl refl);
  table_avail = omega (arith, total-start avail_unit n cooks refl refl);
  full = omega (arith, total-start in_oven n cooks refl refl);
  counted = omega (arith, total-start in_oven n cooks refl refl);
  stored = λ i slot t e. ground arith;
  unique = λ i j slot t u e f. ground arith;
  pizzas = tt;
  loaded = λ i z e. ground arith;
}

-- Every step keeps the invariant.
pub Step-Inv : {n : ℕ} {s t : System} → Step n s t → Inv n s.kitchen s.pc → Inv n t.kitchen t.pc
Step-Inv (pick i lt mv) inv = Move-Inv inv i lt mv

pub Reach-Inv :
    {cooks deliverers : ℕ} {s : System}
    → Reach cooks deliverers s
    → Inv (cooks + deliverers) s.kitchen s.pc
Reach-Inv {cooks} {deliverers} here = Inv-start (cooks + deliverers) cooks
Reach-Inv (next r st) = Step-Inv st (Reach-Inv r)
