-- ===== src/Unconfirmed/Race.antt =====
-- The parent of lab4/zad3a/main.c sets its counter back when signals of the child may have come.
use mathlib.Core.Path.{subst}
use sys_opy.Common.{ℕ, zero, suc, ◌+◌, ◌<◌, ◌≡◌, refl, Bool, true, false, ltb, arith}
use sys_opy.Unconfirmed.{
  Process, silent, inc, fin, Place, first, loop, raise, ending, reset, idle, done, parent_step,
  child_step, handler_inc, handler_fin, System, to_child, to_parent, parent_moves, child_moves,
  parent_enters, parent_leaves, parent_gets_fin, child_enters, child_leaves, child_gets_fin, Reach,
  stay, go, beginning,
}

module _ (cnt : ℕ) where
  abbrev pub PathTo : System → System → Type 0
  PathTo = Reach true cnt

  chain : (s t u : System) → PathTo s t → PathTo t u → PathTo s u
  chain s t u (stay s') r = r
  chain s t u (go s' m t' step q) r = go s m u step (chain m t u q r)

  abbrev parent_at : ℕ → Bool → Process
  parent_at n f = record { counter = n; finished = f; aimed = true }

  abbrev child_at : ℕ → Bool → Process
  child_at n f = record { counter = n; finished = f; aimed = f }

  abbrev sys : Place → Process → Place → Process → ℕ → Bool → ℕ → Bool → System
  sys pp p cp c pi pf ci cf = record {
    parent_place = pp;
    parent = p;
    child_place = cp;
    child = c;
    parent_inc = pi;
    parent_fin = pf;
    parent_in = false;
    child_inc = ci;
    child_fin = cf;
    child_in = false;
  }

  abbrev sending : ℕ → System
  sending i = sys (loop i) (parent_at cnt false) first (child_at i false) 0 false 0 false

  send_one : (i : ℕ) → i < cnt → PathTo (sending i) (sending (i + 1))
  unfolding parent_step to_child handler_inc
  send_one i lt =
      let more : ltb i cnt ≡ true = ground (arith, lt) in
      let p = parent_at cnt false in
      let s₁ = sys (raise i) p first (child_at i false) 0 false 0 false in
      let s₂ = sys (loop (i + 1)) p first (child_at i false) 0 false 1 false in
      let s₃ : System = record (sys (loop (i + 1)) p first (child_at i false) 0 false 0 false) {
        child_in = true;
      } in
      go (sending i) s₁ (sending (i + 1))
        (parent_moves (sending i) (raise i) p silent refl (rw more refl))
        (go s₁ s₂ (sending (i + 1)) (parent_moves s₁ (loop (i + 1)) p inc refl refl) (
          go s₂ s₃ (sending (i + 1)) (child_enters s₂ (omega arith) refl) (
            go s₃ (sending (i + 1)) (sending (i + 1)) (child_leaves s₃ refl)
              (stay (sending (i + 1))))))

  send_all : (n i : ℕ) → i + n ≡ cnt → PathTo (sending i) (sending cnt)
  send_all zero i e =
      let same : i ≡ cnt = omega (arith, e) in
      subst (λ k. PathTo (sending i) (sending k)) same (stay (sending i))
  send_all (suc n) i e =
      chain (sending i) (sending (i + 1)) (sending cnt) (send_one i (omega (arith, e)))
        (send_all n (i + 1) (omega (arith, e)))

  -- The parent has sent the end signal and not yet set its counter to 0.
  abbrev answering : ℕ → System
  answering i = sys reset (parent_at (cnt + i) false) (loop i) (child_at cnt true) 0 false 0 false

  answer_one : (i : ℕ) → i < cnt → PathTo (answering i) (answering (i + 1))
  unfolding child_step to_parent handler_inc
  answer_one i lt =
      let more : ltb i cnt ≡ true = ground (arith, lt) in
      let c = child_at cnt true in
      let p = parent_at (cnt + i) false in
      let s₁ = sys reset p (raise i) c 0 false 0 false in
      let s₂ = sys reset p (loop (i + 1)) c 1 false 0 false in
      let inside : System = record (sys reset p (loop (i + 1)) c 0 false 0 false) {
        parent_in = true;
      } in
      let s₃ = sys reset (parent_at (cnt + i + 1) false) (loop (i + 1)) c 0 false 0 false in
      let same : cnt + i + 1 ≡ cnt + (i + 1) = omega arith in
      let to_s₃ : PathTo (answering i) s₃ =
        go (answering i) s₁ s₃ (child_moves (answering i) (raise i) c silent refl (rw more refl)) (
          go s₁ s₂ s₃ (child_moves s₁ (loop (i + 1)) c inc refl refl) (
            go s₂ inside s₃ (parent_enters s₂ (omega arith) refl)
              (go inside s₃ s₃ (parent_leaves inside refl) (stay s₃)))) in
      subst
        (λ n. PathTo (answering i) (sys reset (parent_at n false) (loop (i + 1)) c 0 false 0 false))
        same to_s₃

  answer_all : (n i : ℕ) → i + n ≡ cnt → PathTo (answering i) (answering cnt)
  answer_all zero i e =
      let same : i ≡ cnt = omega (arith, e) in
      subst (λ k. PathTo (answering i) (answering k)) same (stay (answering i))
  answer_all (suc n) i e =
      chain (answering i) (answering (i + 1)) (answering cnt) (answer_one i (omega (arith, e)))
        (answer_all n (i + 1) (omega (arith, e)))

  start_up : PathTo beginning (sending 0)
  unfolding parent_step to_child
  start_up =
      go beginning (sending 0) (sending 0)
        (parent_moves beginning (loop 0) (parent_at cnt false) silent refl refl) (stay (sending 0))

  hand_over : PathTo (sending cnt) (answering 0)
  unfolding parent_step child_step to_child to_parent handler_fin
  hand_over =
      let over : ltb cnt cnt ≡ false = ground arith in
      let p = parent_at cnt false in
      let c = child_at cnt false in
      let s₁ = sys ending p first c 0 false 0 false in
      let s₂ = sys reset p first c 0 false 0 true in
      let s₃ = sys reset p first (child_at cnt true) 0 false 0 false in
      let s₄ = sys reset p (loop 0) (child_at cnt true) 0 false 0 false in
      let same : cnt ≡ cnt + 0 = omega arith in
      subst
        (λ n.
          PathTo (sending cnt)
            (sys reset (parent_at n false) (loop 0) (child_at cnt true) 0 false 0 false))
        same
        (go (sending cnt) s₁ s₄ (parent_moves (sending cnt) ending p silent refl (rw over refl)) (
          go s₁ s₂ s₄ (parent_moves s₁ reset p fin refl refl) (
            go s₂ s₃ s₄ (child_gets_fin s₂ refl refl) (
              go s₃ s₄ s₄ (child_moves s₃ (loop 0) (child_at cnt true) silent refl refl)
                (stay s₄)))))

  abbrev pub over_now : System
  over_now = sys done (parent_at 0 true) done (child_at cnt true) 0 false 0 false

  finish : PathTo (answering cnt) over_now
  unfolding parent_step child_step to_child to_parent handler_fin
  finish =
      let over : ltb cnt cnt ≡ false = ground arith in
      let p = parent_at (cnt + cnt) false in
      let c = child_at cnt true in
      let s₁ = sys reset p ending c 0 false 0 false in
      let s₂ = sys reset p done c 0 true 0 false in
      let s₃ = sys reset (parent_at (cnt + cnt) true) done c 0 false 0 false in
      let s₄ = sys idle (parent_at 0 true) done c 0 false 0 false in
      go (answering cnt) s₁ over_now
        (child_moves (answering cnt) ending c silent refl (rw over refl))
        (go s₁ s₂ over_now (child_moves s₁ done c fin refl refl) (
          go s₂ s₃ over_now (parent_gets_fin s₂ refl refl) (
            go s₃ s₄ over_now (parent_moves s₃ idle (parent_at 0 true) silent refl refl) (
              go s₄ over_now over_now (parent_moves s₄ done (parent_at 0 true) silent refl refl)
                (stay over_now)))))

  pub to_end : PathTo beginning over_now
  to_end = chain beginning (sending 0) over_now start_up (
      chain (sending 0) (sending cnt) over_now (send_all cnt 0 (omega arith)) (
        chain (sending cnt) (answering 0) over_now hand_over
          (chain (answering 0) (answering cnt) over_now (answer_all cnt 0 (omega arith)) finish)))

-- In the build with real-time signals, for every count, the processes can come to an end in which
-- the child has counted and sent back all of the signals and the counter of the parent is 0: it is
-- set back after the signals of the child have come.
pub answers_lost :
    (cnt : ℕ)
    → (s : System) × Reach true cnt beginning s
      × (s.parent_place ≡ done)
      × (s.child_place ≡ done)
      × (s.child.counter ≡ cnt)
      × (s.parent.counter ≡ 0)
answers_lost cnt = (over_now cnt, to_end cnt, refl, refl, refl, refl)
