-- ===== src/Signals/Tests.antt =====
-- The processes of lab4/zad3b/main.c with a count of 2 and of 1.
use sys_opy.Common.{◌≡◌, refl, ℕ, Bool, true, false, arith}
use sys_opy.Signals.{
  Process, silent, inc, fin, Place, first, arm, load, loop, clear, raise, await, ending, disarm,
  sending_loop, parent_step, handler_inc, handler_fin, System, to_child, to_parent, parent_moves,
  parent_gets_inc, child_gets_inc, child_gets_fin, Reach, stay, go, new_process, beginning, idle,
}
use sys_opy.Signals.Deadlock.{Stuck, deadlock_reached}
use sys_opy.Signals.Invariant.{child_counts_all, no_signal_lost}

deadlock_reached_example :
    (s : System) × Reach 2 beginning s
    × Stuck 2 s
    × (s.parent_place ≡ idle)
    × (s.child_place ≡ await 0)
deadlock_reached_example = deadlock_reached 2 (omega arith) (omega arith)

abbrev sender : Bool → Process
sender c = record { counter = 1; finished = false; sending = true; confirmed = c }

abbrev counting : ℕ → Bool → Process
counting n f = record { counter = n; finished = f; sending = false; confirmed = false }

abbrev sys : Place → Process → Process → Bool → Bool → Bool → System
sys pp p c pi ci cf = record {
  parent_place = pp;
  parent = p;
  child_place = first;
  child = c;
  parent_inc = pi;
  parent_fin = false;
  child_inc = ci;
  child_fin = cf;
}

abbrev armed : Process
armed = record new_process { sending = true }

abbrev at_arm : System
at_arm = sys arm new_process new_process false false false

abbrev at_load : System
at_load = sys load armed new_process false false false

abbrev at_loop : System
at_loop = sys (loop 0) (sender false) new_process false false false

abbrev at_clear : System
at_clear = sys (clear 0) (sender false) new_process false false false

abbrev at_raise : System
at_raise = sys (raise 0) (sender false) new_process false false false

abbrev at_await : System
at_await = sys (await 0) (sender false) new_process false true false

abbrev counted : System
counted = sys (await 0) (sender false) (counting 1 false) true false false

abbrev confirmed : System
confirmed = sys (await 0) (sender true) (counting 1 false) false false false

abbrev at_loop₁ : System
at_loop₁ = sys (loop 1) (sender true) (counting 1 false) false false false

abbrev at_ending : System
at_ending = sys ending (sender true) (counting 1 false) false false false

abbrev at_disarm : System
at_disarm = sys disarm (sender true) (counting 1 false) false false true

abbrev told : System
told = sys disarm (sender true) (counting 1 true) false false false

from_raise : (s : System) → Reach 1 at_raise s → Reach 1 beginning s
unfolding parent_step sending_loop to_child
from_raise s r = go beginning at_arm s (parent_moves beginning arm new_process silent refl) (
    go at_arm at_load s (parent_moves at_arm load armed silent refl) (
      go at_load at_loop s (parent_moves at_load (loop 0) (sender false) silent refl) (
        go at_loop at_clear s (parent_moves at_loop (clear 0) (sender false) silent refl)
          (go at_clear at_raise s (parent_moves at_clear (raise 0) (sender false) silent refl) r))))

to_told : Reach 1 at_raise told
unfolding parent_step sending_loop to_child to_parent handler_inc handler_fin
to_told = go at_raise at_await told (parent_moves at_raise (await 0) (sender false) inc refl) (
    go at_await counted told (child_gets_inc at_await refl) (
      go counted confirmed told (parent_gets_inc counted refl) (
        go confirmed at_loop₁ told (parent_moves confirmed (loop 1) (sender true) silent refl) (
          go at_loop₁ at_ending told (parent_moves at_loop₁ ending (sender true) silent refl) (
            go at_ending at_disarm told (parent_moves at_ending disarm (sender true) fin refl)
              (go at_disarm told told (child_gets_fin at_disarm refl) (stay told)))))))

child_counts_all_example : told.child.counter ≡ 1
child_counts_all_example = child_counts_all 1 told (from_raise told to_told) refl

no_signal_lost_example : at_raise.child_inc ≡ false
unfolding parent_step sending_loop
no_signal_lost_example =
    no_signal_lost 1 at_raise (await 0) (sender false) (from_raise at_raise (stay at_raise)) refl
