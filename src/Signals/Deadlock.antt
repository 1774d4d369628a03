-- ===== src/Signals/Deadlock.antt =====
-- How the processes of lab4/zad3b/main.c come to wait for each other.
use mathlib.Core.Path.{subst}
use sys_opy.Common.{ℕ, zero, suc, ◌+◌, ◌^◌, ◌<◌, ◌≡◌, refl, Bool, true, false, ltb, none, arith}
use sys_opy.Signals.{
  Process, silent, inc, fin, Place, first, arm, load, loop, clear, raise, await, ending, disarm,
  reset, idle, sending_loop, parent_step, child_step, handler_inc, handler_fin, System, to_child,
  to_parent, Step, parent_moves, child_moves, parent_gets_inc, parent_gets_fin, child_gets_inc,
  child_gets_fin, Reach, stay, go, new_process, beginning,
}

module _ (cnt : ℕ) where
  -- Nothing can happen any more.
  abbrev pub Stuck : System → Type 0
  Stuck s = (t : System) → Step cnt s t → ⊥

  blocked :
      (s t : System)
      → Step cnt s t
      → parent_step cnt s.parent_place s.parent ≡ none
      → child_step s.child_place s.child ≡ none
      → s.parent_inc ≡ false
      → s.parent_fin ≡ false
      → s.child_inc ≡ false
      → s.child_fin ≡ false
      → ⊥
  blocked s t (parent_moves s' place p sig e) a b c d f g = cc (e, a)
  blocked s t (child_moves s' place p sig e) a b c d f g = cc (e, b)
  blocked s t (parent_gets_inc s' e) a b c d f g = cc (e, c)
  blocked s t (parent_gets_fin s' e) a b c d f g = cc (e, d)
  blocked s t (child_gets_inc s' e) a b c d f g = cc (e, f)
  blocked s t (child_gets_fin s' e) a b c d f g = cc (e, g)

  abbrev sender : Bool → Process
  sender c = record { counter = cnt; finished = false; sending = true; confirmed = c }

  abbrev counting : ℕ → Process
  counting i = record { counter = i; finished = false; sending = false; confirmed = false }

  abbrev sys : Place → Process → Place → Process → Bool → Bool → Bool → System
  sys pp p cp c pi ci cf = record {
    parent_place = pp;
    parent = p;
    child_place = cp;
    child = c;
    parent_inc = pi;
    parent_fin = false;
    child_inc = ci;
    child_fin = cf;
  }

  joined : (s t u : System) → Reach cnt s t → Reach cnt t u → Reach cnt s u
  joined s t u (stay s') r = r
  joined s t u (go s' m t' step q) r = go s m u step (joined m t u q r)

  -- A round of the parent's loop, in which the child counts and confirms.
  one_round :
      (i : ℕ) (c : Bool)
      → i < cnt
      → Reach cnt
          (sys (loop i) (sender c) first (counting i) false false false)
          (sys (loop (i + 1)) (sender true) first (counting (i + 1)) false false false)
  unfolding parent_step sending_loop to_child to_parent handler_inc
  one_round i c lt =
      let more : ltb i cnt ≡ true = ground (arith, lt) in
      let s₀ = sys (loop i) (sender c) first (counting i) false false false in
      let s₁ = sys (clear i) (sender c) first (counting i) false false false in
      let s₂ = sys (raise i) (sender false) first (counting i) false false false in
      let s₃ = sys (await i) (sender false) first (counting i) false true false in
      let s₄ = sys (await i) (sender false) first (counting (i + 1)) true false false in
      let s₅ = sys (await i) (sender true) first (counting (i + 1)) false false false in
      let s₆ = sys (loop (i + 1)) (sender true) first (counting (i + 1)) false false false in
      go s₀ s₁ s₆ (parent_moves s₀ (clear i) (sender c) silent (rw more refl)) (
        go s₁ s₂ s₆ (parent_moves s₁ (raise i) (sender false) silent refl) (
          go s₂ s₃ s₆ (parent_moves s₂ (await i) (sender false) inc refl) (
            go s₃ s₄ s₆ (child_gets_inc s₃ refl) (
              go s₄ s₅ s₆ (parent_gets_inc s₄ refl) (
                go s₅ s₆ s₆ (parent_moves s₅ (loop (i + 1)) (sender true) silent refl)
                  (stay s₆))))))

  all_rounds :
      (n i : ℕ) (c : Bool)
      → i + n ≡ cnt
      → (c' : Bool) × Reach cnt
          (sys (loop i) (sender c) first (counting i) false false false)
          (sys (loop cnt) (sender c') first (counting cnt) false false false)
  all_rounds zero i c e =
      let same : i ≡ cnt = omega (arith, e) in
      let s = sys (loop i) (sender c) first (counting i) false false false in
      (
        c,
        subst (λ k. Reach cnt s (sys (loop k) (sender c) first (counting k) false false false)) same
            (stay s),
      )
  all_rounds (suc n) i c e =
      let (c', rest) = all_rounds n (i + 1) true (omega (arith, e)) in
      (
        c',
        joined (sys (loop i) (sender c) first (counting i) false false false)
            (sys (loop (i + 1)) (sender true) first (counting (i + 1)) false false false)
            (sys (loop cnt) (sender c') first (counting cnt) false false false)
            (one_round i c (omega (arith, e))) rest,
      )

  abbrev replier : Bool → Process
  replier sends = record { counter = cnt; finished = true; sending = sends; confirmed = false }

  abbrev answered : Bool → ℕ → Process
  answered sends k = record { counter = k; finished = false; sending = sends; confirmed = true }

  abbrev waiting : System
  waiting = sys idle (answered false 0) (await 0) (replier true) false false false

  -- The child's first signal reaches the parent before this has reset `sending`.
  last_part :
      (c : Bool)
      → 0 < cnt
      → Reach cnt (sys (loop cnt) (sender c) first (counting cnt) false false false) waiting
  unfolding parent_step child_step sending_loop to_child to_parent handler_inc handler_fin
  last_part c pos =
      let over : ltb cnt cnt ≡ false = ground arith in
      let more : ltb 0 cnt ≡ true = ground (arith, pos) in
      let s₀ = sys (loop cnt) (sender c) first (counting cnt) false false false in
      let s₁ = sys ending (sender c) first (counting cnt) false false false in
      let s₂ = sys disarm (sender c) first (counting cnt) false false true in
      let s₃ = sys disarm (sender c) first (replier false) false false false in
      let s₄ = sys disarm (sender c) arm (replier false) false false false in
      let s₅ = sys disarm (sender c) (loop 0) (replier true) false false false in
      let s₆ = sys disarm (sender c) (clear 0) (replier true) false false false in
      let s₇ = sys disarm (sender c) (raise 0) (replier true) false false false in
      let s₈ = sys disarm (sender c) (await 0) (replier true) true false false in
      let s₉ = sys disarm (answered true cnt) (await 0) (replier true) false false false in
      let sₐ = sys reset (answered false cnt) (await 0) (replier true) false false false in
      go s₀ s₁ waiting (parent_moves s₀ ending (sender c) silent (rw over refl)) (
        go s₁ s₂ waiting (parent_moves s₁ disarm (sender c) fin refl) (
          go s₂ s₃ waiting (child_gets_fin s₂ refl) (
            go s₃ s₄ waiting (child_moves s₃ arm (replier false) silent refl) (
              go s₄ s₅ waiting (child_moves s₄ (loop 0) (replier true) silent refl) (
                go s₅ s₆ waiting (child_moves s₅ (clear 0) (replier true) silent (rw more refl)) (
                  go s₆ s₇ waiting (child_moves s₆ (raise 0) (replier true) silent refl) (
                    go s₇ s₈ waiting (child_moves s₇ (await 0) (replier true) inc refl) (
                      go s₈ s₉ waiting (parent_gets_inc s₈ refl) (
                        go s₉ sₐ waiting (parent_moves s₉ reset (answered false cnt) silent refl) (
                          go sₐ waiting waiting
                            (parent_moves sₐ idle (answered false 0) silent refl)
                            (stay waiting)))))))))))

  first_part :
      Reach cnt beginning (sys (loop 0) (sender false) first (counting 0) false false false)
  unfolding parent_step to_child
  first_part =
      let armed : Process = record new_process { sending = true } in
      let s₁ = sys arm new_process first (counting 0) false false false in
      let s₂ = sys load armed first (counting 0) false false false in
      let s₃ = sys (loop 0) (sender false) first (counting 0) false false false in
      go beginning s₁ s₃ (parent_moves beginning arm new_process silent refl) (
        go s₁ s₂ s₃ (parent_moves s₁ load armed silent refl)
          (go s₂ s₃ s₃ (parent_moves s₂ (loop 0) (sender false) silent refl) (stay s₃)))

  waiting-Stuck : Stuck waiting
  unfolding parent_step child_step sending_loop
  waiting-Stuck t step = blocked waiting t step refl refl refl refl refl refl

-- For every count from 1 to 2 ^ 31 - 1 the processes can come to a state in which both wait for a signal, none is
-- pending and nothing can happen any more, before either of them has come to its end.
pub deadlock_reached :
    (cnt : ℕ)
    → 0 < cnt
    → cnt < 2 ^ 31
    → (s : System) × Reach cnt beginning s
      × Stuck cnt s
      × (s.parent_place ≡ idle)
      × (s.child_place ≡ await 0)
deadlock_reached cnt pos fits =
    let (c, middle) = all_rounds cnt cnt 0 false (omega arith) in
    let counted = sys cnt (loop cnt) (sender cnt c) first (counting cnt cnt) false false false in
    let from = sys cnt (loop 0) (sender cnt false) first (counting cnt 0) false false false in
    (
      waiting cnt,
      joined cnt beginning from (waiting cnt) (first_part cnt)
          (joined cnt from counted (waiting cnt) middle (last_part cnt c pos)),
      waiting-Stuck cnt,
      refl,
      refl,
    )
