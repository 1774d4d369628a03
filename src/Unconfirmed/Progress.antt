-- ===== src/Unconfirmed/Progress.antt =====
-- The processes of lab4/zad3a/main.c do not come to wait for each other.
use mathlib.Core.Path.{subst}
use sys_opy.Common.{
  ℕ, ◌+◌, ◌<◌, ◌≡◌, refl, Bool, true, false, if◌then◌else◌, ltb, Option, some, ◌⊎◌, inl, inr,
  Bool-cases, ap, arith,
}
use sys_opy.Unconfirmed.{
  Process, Signal, silent, inc, fin, Place, first, loop, raise, ending, reset, idle, done,
  parent_step, child_step, System, in_turn, Step, parent_moves, child_moves, parent_enters,
  parent_leaves, parent_gets_fin, child_enters, child_leaves, child_gets_fin, Reach, beginning,
}
use sys_opy.Unconfirmed.Invariant.{Phase, Late, at_done, in_child, reached}

abbrev Goes : Option (Place × Process × Signal) → Type 0
Goes o = (place : Place) × (p : Process) × (sig : Signal) × (o ≡ some (place, p, sig))

parent-Goes :
    (cnt : ℕ) (pp : Place) (p : Process)
    → Goes (parent_step cnt pp p) ⊎ (((pp ≡ idle) × (p.finished ≡ false)) ⊎ (pp ≡ done))
unfolding parent_step
parent-Goes cnt first p = inl (loop 0, record p { counter = cnt }, silent, refl)
parent-Goes cnt (loop i) p = inl (if ltb i p.counter then raise i else ending, p, silent, refl)
parent-Goes cnt (raise i) p = inl (loop (i + 1), p, inc, refl)
parent-Goes cnt ending p = inl (reset, p, fin, refl)
parent-Goes cnt reset p = inl (idle, record p { counter = 0 }, silent, refl)
parent-Goes cnt idle p = elim (Bool-cases p.finished) [
  | inl t ↦ inl (done, p, silent, ground (arith, t))
  | inr f ↦ inr (inl (refl, f))
]
parent-Goes cnt done p = inr (inr refl)

child-Goes :
    (cp : Place) (p : Process)
    → in_child cp ≡ true
    → p.finished ≡ true
    → Goes (child_step cp p) ⊎ (cp ≡ done)
unfolding child_step
child-Goes first p o f = inl (loop 0, p, silent, ground (arith, f))
child-Goes (loop i) p o f = inl (if ltb i p.counter then raise i else ending, p, silent, refl)
child-Goes (raise i) p o f = inl (loop (i + 1), p, inc, refl)
child-Goes ending p o f = inl (done, p, fin, refl)
child-Goes reset p o f = cc o
child-Goes idle p o f = cc o
child-Goes done p o f = inr refl

module _ (queued : Bool) (cnt : ℕ) where
  -- Something can happen.
  abbrev pub Moves : System → Type 0
  Moves s = (t : System) × Step queued cnt s t

  turn_cases : (n : ℕ) (inside : Bool) → (in_turn queued n inside ≡ true) ⊎ (0 < n)
  turn_cases n inside = ground arith

  parent_told : (s : System) → s.parent_in ≡ false → s.parent_fin ≡ true → Moves s
  parent_told s out e = elim (turn_cases s.parent_inc s.parent_in) [
    | inl t ↦ (_, parent_gets_fin s e t)
    | inr more ↦ (_, parent_enters s more out)
  ]

  child_told : (s : System) → s.child_in ≡ false → s.child_fin ≡ true → Moves s
  child_told s out e = elim (turn_cases s.child_inc s.child_in) [
    | inl t ↦ (_, child_gets_fin s e t)
    | inr more ↦ (_, child_enters s more out)
  ]

  -- The parent waits or is at its end, and no handler runs.
  Late-moves :
      (s : System)
      → s.parent_in ≡ false
      → s.child_in ≡ false
      → Late queued cnt s
      → Moves s ⊎ ((s.child_place ≡ done) × (s.parent.finished ≡ true))
  Late-moves s out out' (sent, inl (e, f, w)) = inl (child_told s out' e)
  Late-moves s out out' (sent, inr (f, a, o, t, last)) =
      elim (child-Goes s.child_place s.child o f) [
        | inl (place, p, sig, e) ↦ inl (_, child_moves s place p sig out' e)
        | inr at_end ↦ elim last [
          | inl other ↦ absurd (let end = ap at_done at_end in cc (other, end))
          | inr (inl e) ↦ inl (parent_told s out e)
          | inr (inr e) ↦ inr (at_end, e)
        ]
      ]

  no_handler :
      (s : System)
      → s.parent_in ≡ false
      → s.child_in ≡ false
      → Phase queued cnt s.parent_place s
      → Moves s ⊎ ((s.parent_place ≡ done) × (s.child_place ≡ done))
  no_handler s out out' h = elim (parent-Goes cnt s.parent_place s.parent) [
    | inl (place, p, sig, e) ↦ inl (_, parent_moves s place p sig out e)
    | inr (inl (e, f)) ↦ elim (Late-moves s out out' (subst (λ pp. Phase queued cnt pp s) e h)) [
      | inl m ↦ inl m
      | inr (at_end, t) ↦ cc (f, t)
    ]
    | inr (inr e) ↦ elim (Late-moves s out out' (subst (λ pp. Phase queued cnt pp s) e h)) [
      | inl m ↦ inl m
      | inr (at_end, t) ↦ inr (e, at_end)
    ]
  ]

  some_moves :
      (s : System)
      → Phase queued cnt s.parent_place s
      → Moves s ⊎ ((s.parent_place ≡ done) × (s.child_place ≡ done))
  some_moves s h = elim (Bool-cases s.parent_in) [
    | inl inside ↦ inl (_, parent_leaves s inside)
    | inr out ↦ elim (Bool-cases s.child_in) [
      | inl inside ↦ inl (_, child_leaves s inside)
      | inr out' ↦ no_handler s out out' h
    ]
  ]

-- In every state that the processes can reach, in every build, something can happen, or both
-- processes have come to their end.
pub some_process_goes_on :
    (queued : Bool) (cnt : ℕ) (s : System)
    → Reach queued cnt beginning s
    → ((t : System) × Step queued cnt s t) ⊎ ((s.parent_place ≡ done) × (s.child_place ≡ done))
some_process_goes_on queued cnt s r = some_moves queued cnt s (reached queued cnt s r)
