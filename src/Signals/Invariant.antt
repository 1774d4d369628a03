-- ===== src/Signals/Invariant.antt =====
-- What the child of lab4/zad3b/main.c has counted at each place of the parent.
use sys_opy.Common.{ℕ, ◌+◌, ◌<◌, ◌≤◌, ◌≡◌, refl, true, false, none, some, ◌⊎◌, arith}
use sys_opy.Signals.{
  Process, Signal, silent, inc, fin, Place, first, arm, load, loop, clear, raise, await, ending,
  sending_loop, parent_step, child_step, handler_inc, handler_fin, System, to_child, to_parent,
  Step, parent_moves, child_moves, parent_gets_inc, parent_gets_fin, child_gets_inc, child_gets_fin,
  Reach, stay, go, beginning,
}

-- The child waits for the end signal.
abbrev pub Fresh : System → Type 0
Fresh s = (s.child_place ≡ first) × (s.child.finished ≡ false) × (s.child.sending ≡ false)

abbrev pub Early : ℕ → System → Type 0
Early n s =
    Fresh s
    × (s.child_inc ≡ false)
    × (s.parent_inc ≡ false)
    × (s.child_fin ≡ false)
    × (s.child.counter ≡ n)

module _ (cnt : ℕ) where
  abbrev pub Armed : System → Type 0
  Armed s = (s.parent.sending ≡ true) × (s.parent.counter ≡ cnt)

  -- One signal is on its way or has been confirmed.
  abbrev pub Waiting : ℕ → System → Type 0
  Waiting i s =
      ((s.child_inc ≡ true)
        × (s.parent_inc ≡ false)
        × (s.parent.confirmed ≡ false)
        × (s.child.counter ≡ i))
      ⊎ (((s.child_inc ≡ false)
            × (s.parent_inc ≡ true)
            × (s.parent.confirmed ≡ false)
            × (s.child.counter ≡ i + 1))
          ⊎ ((s.child_inc ≡ false)
              × (s.parent_inc ≡ false)
              × (s.parent.confirmed ≡ true)
              × (s.child.counter ≡ i + 1)))

  abbrev pub Late : System → Type 0
  Late s =
      (s.child.counter ≡ cnt)
      × ((s.child.finished ≡ true) ⊎ (Fresh s × (s.child_inc ≡ false) × (s.parent_inc ≡ false)))

  abbrev pub Phase : Place → System → Type 0
  Phase first s = Early 0 s
  Phase arm s = Early 0 s
  Phase load s = Early 0 s × (s.parent.sending ≡ true)
  Phase (loop i) s = Early i s × Armed s × (i ≤ cnt)
  Phase (clear i) s = Early i s × Armed s × (i < cnt)
  Phase (raise i) s = Early i s × Armed s × (i < cnt) × (s.parent.confirmed ≡ false)
  Phase (await i) s = Fresh s × (s.child_fin ≡ false) × Armed s × (i < cnt) × Waiting i s
  Phase ending s = Early cnt s × Armed s
  Phase other s = Late s

  parent_lem :
      (s : System) (pp place : Place) (p : Process) (sig : Signal)
      → Phase pp s
      → parent_step cnt pp s.parent ≡ some (place, p, sig)
      → Phase place (to_child sig (record s { parent_place = place; parent = p }))
  unfolding parent_step sending_loop to_child
  parent_lem s pp place p sig h e = ground arith

  Fresh-stuck : (s : System) → Fresh s → child_step s.child_place s.child ≡ none
  unfolding child_step
  Fresh-stuck s (at_first, idle_child, quiet) = rw (at_first, idle_child) refl

  child_step-counter :
      (cp place : Place) (p p' : Process) (sig : Signal)
      → child_step cp p ≡ some (place, p', sig)
      → (p'.counter ≡ p.counter) × (p'.finished ≡ p.finished)
  unfolding child_step sending_loop
  child_step-counter cp place p p' sig e = ground arith

  -- A signal to the parent, where the child is past its wait.
  child-Late :
      (s : System) (place : Place) (p : Process) (sig : Signal)
      → s.child.finished ≡ true
      → Late s
      → child_step s.child_place s.child ≡ some (place, p, sig)
      → Late (to_parent sig (record s { child_place = place; child = p }))
  unfolding to_parent
  child-Late s place p sig f h e =
      ground (arith, child_step-counter s.child_place place s.child p sig e)

  child_lem :
      (s : System) (pp place : Place) (p : Process) (sig : Signal)
      → Phase pp s
      → child_step s.child_place s.child ≡ some (place, p, sig)
      → Phase pp (to_parent sig (record s { child_place = place; child = p }))
  unfolding to_parent
  child_lem s pp place p sig h e =
      ground (arith, Fresh-stuck s, child_step-counter s.child_place place s.child p sig e)

  parent_inc_lem :
      (s : System) (pp : Place)
      → Phase pp s
      → s.parent_inc ≡ true
      → Phase pp (
          to_child
            (handler_inc s.parent).1
            (record s { parent_inc = false; parent = (handler_inc s.parent).0 }))
  unfolding handler_inc to_child
  parent_inc_lem s pp h e = ground arith

  parent_fin_lem :
      (s : System) (pp : Place)
      → Phase pp s
      → Phase pp (record s { parent_fin = false; parent = handler_fin s.parent })
  unfolding handler_fin
  parent_fin_lem s pp h = ground arith

  child_inc_lem :
      (s : System) (pp : Place)
      → Phase pp s
      → s.child_inc ≡ true
      → Phase pp (
          to_parent
            (handler_inc s.child).1
            (record s { child_inc = false; child = (handler_inc s.child).0 }))
  unfolding handler_inc to_parent
  child_inc_lem s pp h e = ground arith

  child_fin_lem :
      (s : System) (pp : Place)
      → Phase pp s
      → s.child_fin ≡ true
      → Phase pp (record s { child_fin = false; child = handler_fin s.child })
  unfolding handler_fin
  child_fin_lem s pp h e = ground arith

  -- A signal leaves the places as they are.
  to_child-place :
      (sig : Signal) (s : System)
      → Phase s.parent_place (to_child sig s)
      → Phase (to_child sig s).parent_place (to_child sig s)
  unfolding to_child
  to_child-place silent s h = h
  to_child-place inc s h = h
  to_child-place fin s h = h

  to_parent-place :
      (sig : Signal) (s : System)
      → Phase s.parent_place (to_parent sig s)
      → Phase (to_parent sig s).parent_place (to_parent sig s)
  unfolding to_parent
  to_parent-place silent s h = h
  to_parent-place inc s h = h
  to_parent-place fin s h = h

  Step-Phase : (s t : System) → Step cnt s t → Phase s.parent_place s → Phase t.parent_place t
  Step-Phase s t (parent_moves s' place p sig e) h =
      to_child-place sig (record s { parent_place = place; parent = p })
        (parent_lem s s.parent_place place p sig h e)
  Step-Phase s t (child_moves s' place p sig e) h =
      to_parent-place sig (record s { child_place = place; child = p })
        (child_lem s s.parent_place place p sig h e)
  Step-Phase s t (parent_gets_inc s' e) h =
      to_child-place (handler_inc s.parent).1
        (record s { parent_inc = false; parent = (handler_inc s.parent).0 })
        (parent_inc_lem s s.parent_place h e)
  Step-Phase s t (parent_gets_fin s' e) h = parent_fin_lem s s.parent_place h
  Step-Phase s t (child_gets_inc s' e) h =
      to_parent-place (handler_inc s.child).1
        (record s { child_inc = false; child = (handler_inc s.child).0 })
        (child_inc_lem s s.parent_place h e)
  Step-Phase s t (child_gets_fin s' e) h = child_fin_lem s s.parent_place h e

  Reach-Phase : (s t : System) → Reach cnt s t → Phase s.parent_place s → Phase t.parent_place t
  Reach-Phase s t (stay s') h = h
  Reach-Phase s t (go s' m t' step r) h = Reach-Phase m t r (Step-Phase s m step h)

  start-Phase : Phase first beginning
  start-Phase = ground arith

  finished_count :
      (s : System) (pp : Place) → Phase pp s → s.child.finished ≡ true → s.child.counter ≡ cnt
  finished_count s pp h e = ground arith

  not_pending :
      (s : System) (pp place : Place) (p : Process)
      → Phase pp s
      → parent_step cnt pp s.parent ≡ some (place, p, inc)
      → s.child_inc ≡ false
  unfolding parent_step sending_loop
  not_pending s pp place p h e = ground arith

-- In every state that the processes can reach, a child that has received the end signal has
-- counted every signal of the parent.
pub child_counts_all :
    (cnt : ℕ) (s : System) → Reach cnt beginning s → s.child.finished ≡ true → s.child.counter ≡ cnt
child_counts_all cnt s r e =
    finished_count cnt s s.parent_place (Reach-Phase cnt beginning s r (start-Phase cnt)) e

-- In every state that the processes can reach, the parent does not send a signal to be counted while
-- another one is pending for the child, so that none is lost.
pub no_signal_lost :
    (cnt : ℕ) (s : System) (place : Place) (p : Process)
    → Reach cnt beginning s
    → parent_step cnt s.parent_place s.parent ≡ some (place, p, inc)
    → s.child_inc ≡ false
no_signal_lost cnt s place p r e =
    not_pending cnt s s.parent_place place p (Reach-Phase cnt beginning s r (start-Phase cnt)) e
