-- ===== src/Unconfirmed.antt =====
-- The signals of lab4/zad3a/main.c: a parent sends a number of signals to a child, which counts them
-- and sends as many back. `queued` tells the build with real-time signals, of which each is kept
-- and the one with the lower number comes first; otherwise a signal that is already pending is not
-- kept again. The handlers run between any two steps of their process. `sa_mask` is empty, so that
-- the end signal may come while `handler_inc` runs, with others pending, since SIGINC is held back
-- then; what is pending when this handler returns is delivered before `main` or `child` goes on. A
-- signal that comes while `handler_fin` runs does the same as one that comes before it.
-- The values that `sigqueue` hands over, the reports and the wait for the child are left out; a count
-- fits into an `int`.
pub mod Invariant
pub mod Progress
pub mod Race
pub mod Tests
use sys_opy.Common.{
  ℕ, suc, ◌+◌, ◌-◌, ◌<◌, ◌≡◌, Bool, true, false, ◌||◌, not, if◌then◌else◌, ltb, ◌==◌, Option, none,
  some,
}

-- The static variables of a process; `aimed` tells whether `targetpid` is known.
pub record Process : Type 0 where
  pub counter : ℕ
  pub finished : Bool
  pub aimed : Bool

pub data Signal : Type 0 where
  silent : Signal
  inc : Signal
  fin : Signal

-- The places in `main` and in `child`; the number is `i`.
pub data Place : Type 0 where
  first : Place
  loop : ℕ → Place
  raise : ℕ → Place
  ending : Place
  reset : Place
  idle : Place
  done : Place

-- `main` behind the start of the child. `none` is a wait that goes on.
pub parent_step : ℕ → Place → Process → Option (Place × Process × Signal)
parent_step cnt first p = some (loop 0, record p { counter = cnt }, silent)
parent_step cnt (loop i) p = some (if ltb i p.counter then raise i else ending, p, silent)
parent_step cnt (raise i) p = some (loop (i + 1), p, inc)
parent_step cnt ending p = some (reset, p, fin)
parent_step cnt reset p = some (idle, record p { counter = 0 }, silent)
parent_step cnt idle p = if p.finished then some (done, p, silent) else none
parent_step cnt done p = none

-- `child` behind the calls of `sigaction`.
pub child_step : Place → Process → Option (Place × Process × Signal)
child_step first p = if p.finished then some (loop 0, p, silent) else none
child_step (loop i) p = some (if ltb i p.counter then raise i else ending, p, silent)
child_step (raise i) p = some (loop (i + 1), p, inc)
child_step ending p = some (done, p, fin)
child_step other p = none

pub handler_inc : Process → Process
handler_inc p = record p { counter = p.counter + 1 }

-- The sender of the signal becomes the target where there is none yet.
pub handler_fin : Process → Process
handler_fin p = record p { finished = true; aimed = true }

-- The processes, how many signals of each kind are pending for them, and whether they are in
-- `handler_inc`, before `counter++`.
pub record System : Type 0 where
  pub parent_place : Place
  pub parent : Process
  pub child_place : Place
  pub child : Process
  pub parent_inc : ℕ
  pub parent_fin : Bool
  pub parent_in : Bool
  pub child_inc : ℕ
  pub child_fin : Bool
  pub child_in : Bool

module _ (queued : Bool) where
  -- The number of pending signals when another one is sent.
  abbrev pub one_more : ℕ → ℕ
  one_more n = if queued then n + 1 else 1

  pub to_child : Signal → System → System
  to_child silent s = s
  to_child inc s = record s { child_inc = one_more s.child_inc }
  to_child fin s = record s { child_fin = true }

  pub to_parent : Signal → System → System
  to_parent silent s = s
  to_parent inc s = record s { parent_inc = one_more s.parent_inc }
  to_parent fin s = record s { parent_fin = true }

  -- Whether the end signal may be delivered, with so many of the others pending: they come first
  -- unless `handler_inc` runs.
  abbrev pub in_turn : ℕ → Bool → Bool
  in_turn n inside = not queued || (inside || (n == 0))

  pub data Step (cnt : ℕ) : System → System → Type 0 where
    parent_moves :
        (s : System) (place : Place) (p : Process) (sig : Signal)
        → s.parent_in ≡ false
        → parent_step cnt s.parent_place s.parent ≡ some (place, p, sig)
        → Step cnt s (to_child sig (record s { parent_place = place; parent = p }))
    child_moves :
        (s : System) (place : Place) (p : Process) (sig : Signal)
        → s.child_in ≡ false
        → child_step s.child_place s.child ≡ some (place, p, sig)
        → Step cnt s (to_parent sig (record s { child_place = place; child = p }))
    parent_enters :
        (s : System)
        → 0 < s.parent_inc
        → s.parent_in ≡ false
        → Step cnt s (record s { parent_inc = s.parent_inc - 1; parent_in = true })
    parent_leaves :
        (s : System)
        → s.parent_in ≡ true
        → Step cnt s (record s {
          parent = handler_inc s.parent;
          parent_in = not (s.parent_inc == 0);
          parent_inc = s.parent_inc - 1;
        })
    parent_gets_fin :
        (s : System)
        → s.parent_fin ≡ true
        → in_turn s.parent_inc s.parent_in ≡ true
        → Step cnt s (record s { parent_fin = false; parent = handler_fin s.parent })
    child_enters :
        (s : System)
        → 0 < s.child_inc
        → s.child_in ≡ false
        → Step cnt s (record s { child_inc = s.child_inc - 1; child_in = true })
    child_leaves :
        (s : System)
        → s.child_in ≡ true
        → Step cnt s (record s {
          child = handler_inc s.child;
          child_in = not (s.child_inc == 0);
          child_inc = s.child_inc - 1;
        })
    child_gets_fin :
        (s : System)
        → s.child_fin ≡ true
        → in_turn s.child_inc s.child_in ≡ true
        → Step cnt s (record s { child_fin = false; child = handler_fin s.child })

  pub data Reach (cnt : ℕ) : System → System → Type 0 where
    stay : (s : System) → Reach cnt s s
    go : (s t u : System) → Step cnt s t → Reach cnt t u → Reach cnt s u

-- The parent knows the child from `fork` on, the child nobody yet.
abbrev pub beginning : System
beginning = record {
  parent_place = first;
  parent = record { counter = 0; finished = false; aimed = true };
  child_place = first;
  child = record { counter = 0; finished = false; aimed = false };
  parent_inc = 0;
  parent_fin = false;
  parent_in = false;
  child_inc = 0;
  child_fin = false;
  child_in = false;
}
