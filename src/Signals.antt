-- ===== src/Signals.antt =====
-- The signals of lab4/zad3b/main.c, in the build with `kill`: a signal that is already pending is not
-- queued again. The parent and the child run on their own, and a handler may run between any two of
-- their steps. `cnt` is the count of the command line as `counter` holds it: a `long` from 2 ^ 31 on,
-- which the assignment to an `int` would change, is left out.
pub mod Deadlock
pub mod Invariant
pub mod Tests
use sys_opy.Common.{◌≡◌, ℕ, ◌+◌, Bool, true, false, not, if◌then◌else◌, ltb, Option, none, some}

-- The static variables of a process.
pub record Process : Type 0 where
  pub counter : ℕ
  pub finished : Bool
  pub sending : Bool
  pub confirmed : Bool

-- What a step sends to the other process.
pub data Signal : Type 0 where
  silent : Signal
  inc : Signal
  fin : Signal

-- The places in `main` and in `child`; the number is `i`.
pub data Place : Type 0 where
  first : Place
  arm : Place
  load : Place
  loop : ℕ → Place
  clear : ℕ → Place
  raise : ℕ → Place
  await : ℕ → Place
  ending : Place
  disarm : Place
  reset : Place
  idle : Place
  done : Place

-- The loop and `confirm_inc`, which both processes have. `none` is a failed assertion, or a wait that
-- goes on.
pub sending_loop : Place → Process → Option (Place × Process × Signal)
sending_loop (loop i) p =
    if ltb i p.counter then some (clear i, p, silent) else some (ending, p, silent)
sending_loop (clear i) p =
    if not p.sending then none else some (raise i, record p { confirmed = false }, silent)
sending_loop (raise i) p = some (await i, p, inc)
sending_loop (await i) p = if p.confirmed then some (loop (i + 1), p, silent) else none
sending_loop ending p = some (disarm, p, fin)
sending_loop other p = none

-- `main` behind the start of the child. The wait for the child is left out.
pub parent_step : ℕ → Place → Process → Option (Place × Process × Signal)
unfolding sending_loop
parent_step cnt first p = some (arm, p, silent)
parent_step cnt arm p = some (load, record p { sending = true }, silent)
parent_step cnt load p = some (loop 0, record p { counter = cnt }, silent)
parent_step cnt disarm p = some (reset, record p { sending = false }, silent)
parent_step cnt reset p = some (idle, record p { counter = 0 }, silent)
parent_step cnt idle p = if p.finished then some (done, p, silent) else none
parent_step cnt place p = sending_loop place p

pub child_step : Place → Process → Option (Place × Process × Signal)
unfolding sending_loop
child_step first p = if p.finished then some (arm, p, silent) else none
child_step arm p = some (loop 0, record p { sending = true }, silent)
child_step disarm p = some (done, record p { sending = false }, silent)
child_step place p = sending_loop place p

pub handler_inc : Process → Process × Signal
handler_inc p =
    if p.sending
    then (record p { confirmed = true }, silent)
    else if not p.finished
    then (record p { counter = p.counter + 1 }, inc)
    else (p, silent)

pub handler_fin : Process → Process
handler_fin p = record p { finished = true }

-- The processes, and the signals that are pending for each.
pub record System : Type 0 where
  pub parent_place : Place
  pub parent : Process
  pub child_place : Place
  pub child : Process
  pub parent_inc : Bool
  pub parent_fin : Bool
  pub child_inc : Bool
  pub child_fin : Bool

pub to_child : Signal → System → System
to_child silent s = s
to_child inc s = record s { child_inc = true }
to_child fin s = record s { child_fin = true }

pub to_parent : Signal → System → System
to_parent silent s = s
to_parent inc s = record s { parent_inc = true }
to_parent fin s = record s { parent_fin = true }

pub data Step (cnt : ℕ) : System → System → Type 0 where
  parent_moves :
      (s : System) (place : Place) (p : Process) (sig : Signal)
      → parent_step cnt s.parent_place s.parent ≡ some (place, p, sig)
      → Step cnt s (to_child sig (record s { parent_place = place; parent = p }))
  child_moves :
      (s : System) (place : Place) (p : Process) (sig : Signal)
      → child_step s.child_place s.child ≡ some (place, p, sig)
      → Step cnt s (to_parent sig (record s { child_place = place; child = p }))
  parent_gets_inc :
      (s : System)
      → s.parent_inc ≡ true
      → Step cnt s (
          to_child
            (handler_inc s.parent).1
            (record s { parent_inc = false; parent = (handler_inc s.parent).0 }))
  parent_gets_fin :
      (s : System)
      → s.parent_fin ≡ true
      → Step cnt s (record s { parent_fin = false; parent = handler_fin s.parent })
  child_gets_inc :
      (s : System)
      → s.child_inc ≡ true
      → Step cnt s (
          to_parent
            (handler_inc s.child).1
            (record s { child_inc = false; child = (handler_inc s.child).0 }))
  child_gets_fin :
      (s : System)
      → s.child_fin ≡ true
      → Step cnt s (record s { child_fin = false; child = handler_fin s.child })

pub data Reach (cnt : ℕ) : System → System → Type 0 where
  stay : (s : System) → Reach cnt s s
  go : (s t u : System) → Step cnt s t → Reach cnt t u → Reach cnt s u

abbrev pub new_process : Process
new_process = record { counter = 0; finished = false; sending = false; confirmed = false }

abbrev pub beginning : System
beginning = record {
  parent_place = first;
  parent = new_process;
  child_place = first;
  child = new_process;
  parent_inc = false;
  parent_fin = false;
  child_inc = false;
  child_fin = false;
}
