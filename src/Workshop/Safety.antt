-- ===== src/Workshop/Safety.antt =====
-- lab9/main.c: what holds in every state that Santa, the elves and the reindeer can reach.
use sys_opy.Common.{
  ℕ, ◌+◌, ◌<◌, ◌≤◌, ◌≡◌, ◌≢◌, refl, sym, ◌⊎◌, inl, inr, Option, none, some, arith, length, dec_lt,
}
use mathlib.Core.Path.{subst}
use sys_opy.Common.Family.{
  total, le-total, add-le-total, total-cases, total_strict, total_mono, total-le, total-complement,
}
use sys_opy.Workshop.{
  Shop, Santa, asleep, gone, Elf, entering, Reindeer, vacation, arriving, maxelf, maxelfwait,
  maxrein, maxreinwait, santa_step, elf_step, reindeer_step,
}
use sys_opy.Workshop.System.{System, Reach}
use sys_opy.Workshop.Invariant.{
  santa_inside, elf_inside, reindeer_inside, has_slot, elf_waits, reindeer_waits, posted_elves,
  posted_reindeer, waits-le, Inv, Reach-Inv,
}

-- Not counted among the waiting reindeer.
abbrev away : Reindeer → ℕ
away vacation = 1
away arriving = 1
away _ = 0

some_of {ℓ} : {A : Type ℓ} (o : Option A) → o ≢ none → (a : A) × (o ≡ some a)
some_of none ne = absurd (ne refl)
some_of (some a) ne = (a, refl)

module _ {s : System} (r : Reach s) where
  inv : Inv s.shop s.elf s.rein
  inv = Reach-Inv r

  -- While an elf is between locking and unlocking the mutex, no other elf
  -- is, no reindeer is, and Santa is not.
  elf_alone :
      (i : ℕ)
      → i < maxelf
      → elf_inside (s.elf i) ≡ 1
      → (santa_inside s.shop.santa ≡ 0)
        × ((j : ℕ) → j < maxelf → elf_inside (s.elf j) ≡ 1 → j ≡ i)
        × ((j : ℕ) → j < maxrein → reindeer_inside (s.rein j) ≡ 0)
  elf_alone i hi h = (
    omega (arith, inv.mutex, le-total elf_inside maxelf s.elf i hi),
    λ j hj k. elim (dec_lt i j) [
      | yes lt ↦ absurd (omega (arith, inv.mutex, add-le-total elf_inside maxelf s.elf i j lt hj))
      | no ge ↦ elim (dec_lt j i) [
        | yes gt ↦ absurd (omega (arith, inv.mutex, add-le-total elf_inside maxelf s.elf j i gt hi))
        | no le ↦ omega arith
      ]
    ],
    λ j hj. omega (
      arith,
      inv.mutex,
      le-total elf_inside maxelf s.elf i hi,
      le-total reindeer_inside maxrein s.rein j hj,
    ),
  )

  -- In every reachable state at most one of Santa, the elves and the reindeer is between locking and
  -- unlocking the mutex.
  pub one_inside :
      santa_inside s.shop.santa
        + total elf_inside maxelf s.elf
        + total reindeer_inside maxrein s.rein
      ≤ 1
  one_inside = omega (arith, inv.mutex)

  -- An elf in its critical section writes its thread id inside `elfids`.
  pub elfids_in_bounds :
      (i : ℕ) → i < maxelf → s.elf i ≡ entering → s.shop.elves < length s.shop.elfids
  elfids_in_bounds i hi e =
      let alone : santa_inside s.shop.santa ≡ 0 = (elf_alone i hi (rw e)).0 in
      let quiet : posted_elves s.shop.santa ≡ 0 = ground (arith, alone) in
      let fewer : total elf_waits maxelf s.elf < total has_slot maxelf s.elf =
        total_strict elf_waits has_slot waits-le maxelf s.elf i hi (rw e (omega arith)) in
      omega (arith, inv.elves, inv.slots, inv.width)

  -- No wake-up is lost: while Santa waits and has not been signalled, fewer reindeer and fewer elves
  -- are waiting than she waits for.
  pub no_missed_wakeup :
      (d : ℕ)
      → s.shop.santa ≡ asleep d
      → (s.shop.reindeer < maxreinwait) × (s.shop.elves < maxelfwait)
  no_missed_wakeup d e = ground (arith, inv.agrees)

  few_elves : total elf_waits maxelf s.elf ≤ total has_slot maxelf s.elf
  few_elves = total_mono elf_waits has_slot waits-le maxelf s.elf

  few_reindeer : total reindeer_waits maxrein s.rein ≤ maxrein
  few_reindeer = total-le reindeer_waits (λ r. ground arith) maxrein s.rein

  -- The counters stay within the numbers that Santa waits for, and each kind's posts are never more
  -- than the threads that wait for them.
  pub counters_bounded :
      (s.shop.elves ≤ maxelfwait)
      × (s.shop.reindeer ≤ maxreinwait)
      × (s.shop.elf_sem ≤ total elf_waits maxelf s.elf)
      × (s.shop.reindeer_sem ≤ total reindeer_waits maxrein s.rein)
  counters_bounded =
      ground (arith, inv.elves, inv.reindeer, inv.slots, inv.agrees, few_elves, few_reindeer)

  -- Some thread can make a move of its own, without Santa being woken for no reason.
  abbrev pub CanMove : Type 0
  CanMove =
      ((m : Shop) × (santa_step s.shop.santa s.shop ≡ some m))
      ⊎ ((i : ℕ) × (e : Elf) × (m : Shop) × (i < maxelf)
          × (elf_step i (s.elf i) s.shop ≡ some (e, m)))
      ⊎ ((i : ℕ) × (r' : Reindeer) × (m : Shop) × (i < maxrein)
          × (reindeer_step (s.rein i) s.shop ≡ some (r', m)))

  elf_can : (i : ℕ) (p : Elf) → i < maxelf → s.elf i ≡ p → elf_step i p s.shop ≢ none → CanMove
  elf_can i p hi e ne =
      let (x, h) = some_of (elf_step i (s.elf i) s.shop) (rw e ne) in inr (inl (i, x.0, x.1, hi, h))

  reindeer_can :
      (i : ℕ) (p : Reindeer) → i < maxrein → s.rein i ≡ p → reindeer_step p s.shop ≢ none → CanMove
  reindeer_can i p hi e ne =
      let (x, h) = some_of (reindeer_step (s.rein i) s.shop) (rw e ne) in
      inr (inr (i, x.0, x.1, hi, h))

  santa_can : (p : Santa) → s.shop.santa ≡ p → santa_step p s.shop ≢ none → CanMove
  santa_can p e ne = inl (
      some_of (santa_step s.shop.santa s.shop) (subst (λ x. santa_step x s.shop ≢ none) (sym e) ne))

  elf_inside_moves : (i : ℕ) (p : Elf) → i < maxelf → s.elf i ≡ p → 0 < elf_inside p → CanMove
  unfolding elf_step
  elf_inside_moves i p hi e h = elf_can i p hi e (ground arith)

  reindeer_inside_moves :
      (i : ℕ) (p : Reindeer) → i < maxrein → s.rein i ≡ p → 0 < reindeer_inside p → CanMove
  unfolding reindeer_step
  reindeer_inside_moves i p hi e h = reindeer_can i p hi e (ground arith)

  -- With the mutex free, a reindeer that is not waiting can move, and one that waits can if there is
  -- a post for it.
  away_moves :
      (i : ℕ) (p : Reindeer)
      → i < maxrein
      → s.rein i ≡ p
      → 0 < s.shop.lock
      → (0 < away p) ⊎ (0 < s.shop.reindeer_sem)
      → CanMove
  unfolding reindeer_step
  away_moves i p hi e free h = reindeer_can i p hi e (ground arith)

  asleep_moves : (d : ℕ) → s.shop.santa ≡ asleep d → 0 < s.shop.lock → CanMove
  asleep_moves d e free = elim (total-cases away maxrein s.rein) [
    | inr (i, hi, h) ↦ away_moves i (s.rein i) hi refl free (inl h)
    | inl none_away ↦
        let few : s.shop.reindeer < maxreinwait = (no_missed_wakeup d e).0 in
        let unposted : posted_reindeer s.shop.santa ≡ 0 = rw e in
        let posts : 0 < s.shop.reindeer_sem = omega (
          arith,
          inv.reindeer,
          total-complement away reindeer_waits (λ r. ground arith) maxrein s.rein,
        ) in
        away_moves 0 (s.rein 0) (omega arith) refl free (inr posts)
  ]

  -- Santa inside the mutex never waits; outside she needs it free, and if she sleeps someone else
  -- can move.
  santa_moves_on :
      (p : Santa) → s.shop.santa ≡ p → p ≢ gone → (0 < s.shop.lock) ⊎ (0 < santa_inside p) → CanMove
  unfolding santa_step
  santa_moves_on (asleep d) e stay free = asleep_moves d e (ground arith)
  santa_moves_on p e stay free = santa_can p e (ground arith)

  -- Until Santa has left, some thread can always move, and it need not be Santa being woken for no
  -- reason.
  pub some_thread_moves : s.shop.santa ≢ gone → CanMove
  some_thread_moves stay = elim (total-cases elf_inside maxelf s.elf) [
    | inr (i, hi, h) ↦ elf_inside_moves i (s.elf i) hi refl h
    | inl elves_out ↦ elim (total-cases reindeer_inside maxrein s.rein) [
      | inr (i, hi, h) ↦ reindeer_inside_moves i (s.rein i) hi refl h
      | inl reindeer_out ↦ santa_moves_on s.shop.santa refl stay (omega (arith, inv.mutex))
    ]
  ]
