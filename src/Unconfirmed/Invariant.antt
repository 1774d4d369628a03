-- ===== src/Unconfirmed/Invariant.antt =====
-- What holds between the processes of lab4/zad3a/main.c and the signals pending.
use sys_opy.Common.{
  ℕ, ◌+◌, ◌-◌, ◌<◌, ◌≤◌, ◌≡◌, refl, Bool, true, false, not, if◌then◌else◌, ◌==◌, none, some, ◌⊎◌,
  arith,
}
use sys_opy.Unconfirmed.{
  Process, Signal, silent, inc, fin, Place, first, loop, raise, ending, reset, idle, done,
  parent_step, child_step, handler_inc, handler_fin, System, to_child, to_parent, in_turn, Step,
  parent_moves, child_moves, parent_enters, parent_leaves, parent_gets_fin, child_enters,
  child_leaves, child_gets_fin, Reach, stay, go, beginning,
}

-- So many signals have been sent to the child: each is counted, pending or in the handler, or one of
-- those that were not kept.
abbrev pub Sent : Bool → ℕ → System → Type 0
Sent true n s = s.child.counter + s.child_inc + (if s.child_in then 1 else 0) ≡ n
Sent false n s = s.child.counter + s.child_inc + (if s.child_in then 1 else 0) ≤ n

-- The child waits, and the end signal has not been sent.
abbrev pub Early : System → Type 0
Early s =
    (s.child_place ≡ first)
    × (s.child.finished ≡ false)
    × (s.child_fin ≡ false)
    × (s.parent_inc ≡ 0)
    × (s.parent_fin ≡ false)
    × (s.parent_in ≡ false)

abbrev pub at_done : Place → Bool
at_done done = true
at_done other = false

-- The places of `child`.
abbrev pub in_child : Place → Bool
in_child reset = false
in_child idle = false
in_child other = true

module _ (queued : Bool) (cnt : ℕ) where
  -- The end signal is on its way, or the child has it; in the end the parent has its own.
  abbrev pub Late : System → Type 0
  Late s =
      Sent queued cnt s
      × (((s.child_fin ≡ true) × (s.child.finished ≡ false) × (s.child_place ≡ first))
          ⊎ ((s.child.finished ≡ true)
              × (s.child.aimed ≡ true)
              × (in_child s.child_place ≡ true)
              × (in_turn queued s.child_inc s.child_in ≡ true)
              × ((at_done s.child_place ≡ false)
                  ⊎ ((s.parent_fin ≡ true) ⊎ (s.parent.finished ≡ true)))))

  abbrev pub Phase : Place → System → Type 0
  Phase first s = Early s × (s.child.counter ≡ 0) × (s.child_inc ≡ 0) × (s.child_in ≡ false)
  Phase (loop i) s = Early s × Sent queued i s × (s.parent.counter ≡ cnt) × (i ≤ cnt)
  Phase (raise i) s = Early s × Sent queued i s × (s.parent.counter ≡ cnt) × (i < cnt)
  Phase ending s = Early s × Sent queued cnt s
  Phase other s = Late s

  parent_lem :
      (s : System) (pp place : Place) (p : Process) (sig : Signal)
      → Phase pp s
      → parent_step cnt pp s.parent ≡ some (place, p, sig)
      → Phase place (to_child queued sig (record s { parent_place = place; parent = p }))
  unfolding parent_step to_child
  parent_lem s pp place p sig h e = ground arith

  Early-stuck :
      (s : System)
      → s.child_place ≡ first
      → s.child.finished ≡ false
      → child_step s.child_place s.child ≡ none
  unfolding child_step
  Early-stuck s at_first f = rw (at_first, f) refl

  -- What a step of the child keeps, and that it comes to its end with the end signal.
  child_step_lem :
      (cp place : Place) (p p' : Process) (sig : Signal)
      → child_step cp p ≡ some (place, p', sig)
      → (p' ≡ p) × (in_child place ≡ true) × ((at_done place ≡ false) ⊎ (sig ≡ fin))
  unfolding child_step
  child_step_lem cp place p p' sig e = ground arith

  child_lem :
      (s : System) (pp place : Place) (p : Process) (sig : Signal)
      → Phase pp s
      → child_step s.child_place s.child ≡ some (place, p, sig)
      → Phase pp (to_parent queued sig (record s { child_place = place; child = p }))
  unfolding to_parent
  child_lem s pp place p sig h e =
      ground (arith, Early-stuck s, child_step_lem s.child_place place s.child p sig e)

  parent_enters_lem :
      (s : System) (pp : Place)
      → Phase pp s
      → 0 < s.parent_inc
      → Phase pp (record s { parent_inc = s.parent_inc - 1; parent_in = true })
  parent_enters_lem s pp h e = ground arith

  parent_leaves_lem :
      (s : System) (pp : Place)
      → Phase pp s
      → s.parent_in ≡ true
      → Phase pp (record s {
        parent = handler_inc s.parent;
        parent_in = not (s.parent_inc == 0);
        parent_inc = s.parent_inc - 1;
      })
  unfolding handler_inc
  parent_leaves_lem s pp h e = ground arith

  parent_fin_lem :
      (s : System) (pp : Place)
      → Phase pp s
      → s.parent_fin ≡ true
      → Phase pp (record s { parent_fin = false; parent = handler_fin s.parent })
  unfolding handler_fin
  parent_fin_lem s pp h e = ground arith

  child_enters_lem :
      (s : System) (pp : Place)
      → Phase pp s
      → 0 < s.child_inc
      → s.child_in ≡ false
      → Phase pp (record s { child_inc = s.child_inc - 1; child_in = true })
  child_enters_lem s pp h e f = ground arith

  child_leaves_lem :
      (s : System) (pp : Place)
      → Phase pp s
      → s.child_in ≡ true
      → Phase pp (record s {
        child = handler_inc s.child;
        child_in = not (s.child_inc == 0);
        child_inc = s.child_inc - 1;
      })
  unfolding handler_inc
  child_leaves_lem s pp h e = ground arith

  child_fin_lem :
      (s : System) (pp : Place)
      → Phase pp s
      → s.child_fin ≡ true
      → in_turn queued s.child_inc s.child_in ≡ true
      → Phase pp (record s { child_fin = false; child = handler_fin s.child })
  unfolding handler_fin
  child_fin_lem s pp h e t = ground arith

  -- A signal leaves the places as they are.
  to_child-place :
      (sig : Signal) (s : System)
      → Phase s.parent_place (to_child queued sig s)
      → Phase (to_child queued sig s).parent_place (to_child queued sig s)
  unfolding to_child
  to_child-place silent s h = h
  to_child-place inc s h = h
  to_child-place fin s h = h

  to_parent-place :
      (sig : Signal) (s : System)
      → Phase s.parent_place (to_parent queued sig s)
      → Phase (to_parent queued sig s).parent_place (to_parent queued sig s)
  unfolding to_parent
  to_parent-place silent s h = h
  to_parent-place inc s h = h
  to_parent-place fin s h = h

  Step-Phase :
      (s t : System) → Step queued cnt s t → Phase s.parent_place s → Phase t.parent_place t
  Step-Phase s t (parent_moves s' place p sig out e) h =
      to_child-place sig (record s { parent_place = place; parent = p })
        (parent_lem s s.parent_place place p sig h e)
  Step-Phase s t (child_moves s' place p sig out e) h =
      to_parent-place sig (record s { child_place = place; child = p })
        (child_lem s s.parent_place place p sig h e)
  Step-Phase s t (parent_enters s' e out) h = parent_enters_lem s s.parent_place h e
  Step-Phase s t (parent_leaves s' e) h = parent_leaves_lem s s.parent_place h e
  Step-Phase s t (parent_gets_fin s' e i) h = parent_fin_lem s s.parent_place h e
  Step-Phase s t (child_enters s' e out) h = child_enters_lem s s.parent_place h e out
  Step-Phase s t (child_leaves s' e) h = child_leaves_lem s s.parent_place h e
  Step-Phase s t (child_gets_fin s' e i) h = child_fin_lem s s.parent_place h e i

  Reach-Phase :
      (s t : System) → Reach queued cnt s t → Phase s.parent_place s → Phase t.parent_place t
  Reach-Phase s t (stay s') h = h
  Reach-Phase s t (go s' m t' step r) h = Reach-Phase m t r (Step-Phase s m step h)

  pub reached : (s : System) → Reach queued cnt beginning s → Phase s.parent_place s
  reached s r = Reach-Phase beginning s r (ground arith)

finished_count :
    (cnt : ℕ) (s : System) (pp : Place)
    → Phase true cnt pp s
    → s.child.finished ≡ true
    → s.child_in ≡ false
    → s.child.counter ≡ cnt
finished_count cnt s pp h e out = ground arith

bounded_count :
    (queued : Bool) (cnt : ℕ) (s : System) (pp : Place)
    → Phase queued cnt pp s
    → s.child.counter ≤ cnt
bounded_count queued cnt s pp h = ground arith

-- In the build with real-time signals, a child that has received the end signal and is not in the
-- handler of the others, as whenever the loop of `child` goes on, has counted every signal of the
-- parent, in every state that the processes can reach.
pub queued_counts_all :
    (cnt : ℕ) (s : System)
    → Reach true cnt beginning s
    → s.child.finished ≡ true
    → s.child_in ≡ false
    → s.child.counter ≡ cnt
queued_counts_all cnt s r e out = finished_count cnt s s.parent_place (reached true cnt s r) e out

-- In every build the child never counts more signals than the parent means to send, in every state
-- that the processes can reach.
pub counts_at_most :
    (queued : Bool) (cnt : ℕ) (s : System) → Reach queued cnt beginning s → s.child.counter ≤ cnt
counts_at_most queued cnt s r = bounded_count queued cnt s s.parent_place (reached queued cnt s r)
