-- ===== src/Workshop/Invariant.antt =====
-- lab9/main.c: what holds between Santa, the elves, the reindeer and the shared counters.
use sys_opy.Common.{ℕ, ◌+◌, ◌<◌, ◌≤◌, ◌≡◌, refl, some, arith, length, length-set}
use sys_opy.Common.Family.{
  update, total, total-update, le-total, total-le, total_mono, total-eq-zero,
}
use sys_opy.Workshop.{
  Shop, Santa, starting, checking, asleep, woken, delivering, solving, Elf, napping, entering,
  counted, hoping, Reindeer, arriving, arrived, home, maxelf, maxelfwait, maxrein, maxreinwait,
  init_ctx, santa_step, elf_step, reindeer_step,
}
use sys_opy.Workshop.System.{
  System, Step, santa_moves, santa_wakes, elf_moves, reindeer_moves, start, Reach, here, next,
}

-- Who has the mutex.
abbrev pub santa_inside : Santa → ℕ
santa_inside (checking _) = 1
santa_inside (delivering _ _) = 1
santa_inside (solving _ _) = 1
santa_inside _ = 0

abbrev pub elf_inside : Elf → ℕ
elf_inside entering = 1
elf_inside counted = 1
elf_inside _ = 0

abbrev pub reindeer_inside : Reindeer → ℕ
reindeer_inside arriving = 1
reindeer_inside arrived = 1
reindeer_inside _ = 0

-- Between the wait for `elfslots_sem` and its post.
abbrev pub has_slot : Elf → ℕ
has_slot napping = 0
has_slot _ = 1

-- Counted in `elves`, and not past the wait for `elf_sem`.
abbrev pub elf_waits : Elf → ℕ
elf_waits counted = 1
elf_waits hoping = 1
elf_waits _ = 0

abbrev pub reindeer_waits : Reindeer → ℕ
reindeer_waits arrived = 1
reindeer_waits home = 1
reindeer_waits _ = 0

-- Posts that Santa has made while the counter still stands.
abbrev pub posted_elves : Santa → ℕ
posted_elves (solving _ j) = j
posted_elves _ = 0

abbrev pub posted_reindeer : Santa → ℕ
posted_reindeer (delivering _ j) = j
posted_reindeer _ = 0

-- What Santa's place says of the counters.
abbrev pub Agrees : Santa → Shop → Type 0
Agrees (asleep d) m = (m.reindeer < maxreinwait) × (m.elves < maxelfwait) × (d < 3)
Agrees (delivering d j) m = (j ≤ maxreinwait) × (m.reindeer ≡ maxreinwait) × (d < 3)
Agrees (solving d j) m = (j ≤ maxelfwait) × (m.elves ≡ maxelfwait) × (d < 3)
Agrees (checking d) m = d ≤ 3
Agrees (woken d) m = d ≤ 3
Agrees _ m = Unit

pub record Inv (m : Shop) (elf : ℕ → Elf) (rein : ℕ → Reindeer) : Type 0 where
  pub mutex :
      m.lock
        + santa_inside m.santa
        + total elf_inside maxelf elf
        + total reindeer_inside maxrein rein
      ≡ 1
  pub slots : m.elfslots_sem + total has_slot maxelf elf ≡ maxelfwait
  pub elves : m.elves + m.elf_sem ≡ total elf_waits maxelf elf + posted_elves m.santa
  pub reindeer :
      m.reindeer + m.reindeer_sem ≡ total reindeer_waits maxrein rein + posted_reindeer m.santa
  pub agrees : Agrees m.santa m
  pub width : length m.elfids ≡ maxelfwait

pub waits-le : (e : Elf) → elf_waits e ≤ has_slot e
waits-le e = ground arith

module _ {m : Shop} {elf : ℕ → Elf} {rein : ℕ → Reindeer} (inv : Inv m elf rein) where
  open inv use {mutex, slots, elves, reindeer, agrees, width}

  -- Neither counter exceeds what its kind of thread can bring about.
  few_elves : total elf_waits maxelf elf ≤ total has_slot maxelf elf
  few_elves = total_mono elf_waits has_slot waits-le maxelf elf

  few_reindeer : total reindeer_waits maxrein rein ≤ maxrein
  few_reindeer = total-le reindeer_waits (λ r. ground arith) maxrein rein

  santa-Inv : (p : Santa) → m.santa ≡ p → {m' : Shop} → santa_step p m ≡ some m' → Inv m' elf rein
  unfolding santa_step
  santa-Inv starting e h = ground (arith, mutex, slots, elves, reindeer, agrees, width)
  santa-Inv (checking d) e h =
      ground (arith, mutex, slots, elves, reindeer, agrees, width, few_elves, few_reindeer)
  santa-Inv p e h = ground (arith, mutex, slots, elves, reindeer, agrees, width)

  record Elves (i : ℕ) (e e' : Elf) : Type 0 where
    inside :
        total elf_inside maxelf (update elf i e') + elf_inside e
        ≡ total elf_inside maxelf elf + elf_inside e'
    slot :
        total has_slot maxelf (update elf i e') + has_slot e
        ≡ total has_slot maxelf elf + has_slot e'
    waits :
        total elf_waits maxelf (update elf i e') + elf_waits e
        ≡ total elf_waits maxelf elf + elf_waits e'
    own_inside : elf_inside e ≤ total elf_inside maxelf elf

  elf-Elves : (i : ℕ) (e' : Elf) → i < maxelf → Elves i (elf i) e'
  elf-Elves i e' lt = record {
    inside = total-update elf_inside maxelf elf i e' lt;
    slot = total-update has_slot maxelf elf i e' lt;
    waits = total-update elf_waits maxelf elf i e' lt;
    own_inside = le-total elf_inside maxelf elf i lt;
  }

  elf-Inv :
      (i : ℕ) (e e' : Elf) {m' : Shop}
      → Elves i e e'
      → elf_step i e m ≡ some (e', m')
      → Inv m' (update elf i e') rein
  unfolding elf_step
  elf-Inv i entering e' c h =
      ground (arith, mutex, slots, elves, reindeer, agrees, width, c, length-set m.elfids m.elves i)
  elf-Inv i e e' c h = ground (arith, mutex, slots, elves, reindeer, agrees, width, c)

  record Herd (i : ℕ) (r r' : Reindeer) : Type 0 where
    inside :
        total reindeer_inside maxrein (update rein i r') + reindeer_inside r
        ≡ total reindeer_inside maxrein rein + reindeer_inside r'
    waits :
        total reindeer_waits maxrein (update rein i r') + reindeer_waits r
        ≡ total reindeer_waits maxrein rein + reindeer_waits r'
    own_inside : reindeer_inside r ≤ total reindeer_inside maxrein rein

  reindeer-Herd : (i : ℕ) (r' : Reindeer) → i < maxrein → Herd i (rein i) r'
  reindeer-Herd i r' lt = record {
    inside = total-update reindeer_inside maxrein rein i r' lt;
    waits = total-update reindeer_waits maxrein rein i r' lt;
    own_inside = le-total reindeer_inside maxrein rein i lt;
  }

  reindeer-Inv :
      (i : ℕ) (r r' : Reindeer) {m' : Shop}
      → Herd i r r'
      → reindeer_step r m ≡ some (r', m')
      → Inv m' elf (update rein i r')
  unfolding reindeer_step
  reindeer-Inv i arriving r' c h = ground (arith, mutex, slots, elves, reindeer, agrees, width, c)
  reindeer-Inv i r r' c h = ground (arith, mutex, slots, elves, reindeer, agrees, width, c)

  woken-Inv : (d : ℕ) → m.santa ≡ asleep d → Inv (record m { santa = woken d }) elf rein
  woken-Inv d e = ground (arith, mutex, slots, elves, reindeer, agrees, width)

pub Step-Inv : {s t : System} → Step s t → Inv s.shop s.elf s.rein → Inv t.shop t.elf t.rein
Step-Inv {s} (santa_moves h) inv = santa-Inv inv s.shop.santa refl h
Step-Inv (santa_wakes d e) inv = woken-Inv inv d e
Step-Inv {s} (elf_moves i {e} lt h) inv = elf-Inv inv i (s.elf i) e (elf-Elves inv i e lt) h
Step-Inv {s} (reindeer_moves i {r} lt h) inv =
    reindeer-Inv inv i (s.rein i) r (reindeer-Herd inv i r lt) h

pub Reach-Inv : {s : System} → Reach s → Inv s.shop s.elf s.rein
unfolding init_ctx
Reach-Inv here = record {
  mutex = omega (
    arith,
    total-eq-zero elf_inside maxelf start.elf (λ i. refl),
    total-eq-zero reindeer_inside maxrein start.rein (λ i. refl),
  );
  slots = omega (arith, total-eq-zero has_slot maxelf start.elf (λ i. refl));
  elves = omega (arith, total-eq-zero elf_waits maxelf start.elf (λ i. refl));
  reindeer = omega (arith, total-eq-zero reindeer_waits maxrein start.rein (λ i. refl));
  agrees = tt;
  width = refl;
}
Reach-Inv (next r st) = Step-Inv st (Reach-Inv r)
