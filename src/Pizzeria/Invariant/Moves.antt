-- ===== src/Pizzeria/Invariant/Moves.antt =====
-- lab7/main.c: a move of process `i` keeps each field of the invariant.
use sys_opy.Common.{
  ℕ, ◌+◌, ◌<◌, ◌≤◌, ◌≡◌, refl, sym, some, false, arith, length, get_elem?, get_or, true, set,
  get_elem?-set_self, get_elem?-set_ne, length-set,
}
use mathlib.Core.Path.{subst}
use sys_opy.Common.Int.{ℤ, pos}
use sys_opy.Common.Family.{update, total, total-update, le-total}
use sys_opy.Pizzeria.{Kitchen, slots, vacant, is_negative, oven_remove, table_put}
use sys_opy.Pizzeria.Process.{
  Pc, Move, prepare, wait_oven_cap, lock_insert, insert, lock_remove, remove, wait_table_cap,
  lock_put, put, wait_table_avail, lock_get, get,
}
use sys_opy.Pizzeria.Oven.{
  occupied, Inserted, oven_insert-Inserted, occupied-set_vacant, occupied-set_taken,
  get_or-of-get_elem?, vacant-ne,
}
use sys_opy.Pizzeria.Table.{
  IsRing, contents, AllPizzas, AllPizzas-snoc, cleared, contents-table_put, table_put-IsRing,
  table_get-cleared, contents-cleared, cleared-IsRing,
}
use sys_opy.Pizzeria.Invariant.Counts.{
  at_oven, oven_unit, in_oven, at_table, table_unit, avail_unit, owns, carries, Inv,
}

-- What a wait for a semaphore needs, for the catch-all clauses below, which cannot name it.
abbrev Guard : {m m' : Kitchen} {p p' : Pc} → Move m p m' p' → Type 0
Guard {m} (wait_oven_cap _) = 0 < m.oven_cap
Guard {m} (lock_insert _) = 0 < m.oven_lk
Guard {m} (lock_remove _) = 0 < m.oven_lk
Guard {m} (wait_table_cap _) = 0 < m.table_cap
Guard {m} (lock_put _) = 0 < m.table_lk
Guard {m} (wait_table_avail _) = 0 < m.table_avail
Guard {m} (lock_get _) = 0 < m.table_lk
Guard _ = Unit

guard : {m m' : Kitchen} {p p' : Pc} (mv : Move m p m' p') → Guard mv
guard (wait_oven_cap g) = g
guard (lock_insert g) = g
guard (lock_remove g) = g
guard (wait_table_cap g) = g
guard (lock_put g) = g
guard (wait_table_avail g) = g
guard (lock_get g) = g
guard _ = tt

-- How the move of one process from `p` to `p'` changes the six counts.
record Mover (n : ℕ) (pc : ℕ → Pc) (i : ℕ) (p p' : Pc) : Type 0 where
  here : pc i ≡ p
  ovens : total at_oven n (update pc i p') + at_oven p ≡ total at_oven n pc + at_oven p'
  units : total oven_unit n (update pc i p') + oven_unit p ≡ total oven_unit n pc + oven_unit p'
  bakers : total in_oven n (update pc i p') + in_oven p ≡ total in_oven n pc + in_oven p'
  tables : total at_table n (update pc i p') + at_table p ≡ total at_table n pc + at_table p'
  places :
      total table_unit n (update pc i p') + table_unit p ≡ total table_unit n pc + table_unit p'
  news : total avail_unit n (update pc i p') + avail_unit p ≡ total avail_unit n pc + avail_unit p'
  own_unit : oven_unit p ≤ total oven_unit n pc
  own_baker : in_oven p ≤ total in_oven n pc
  own_place : table_unit p ≤ total table_unit n pc
  own_news : avail_unit p ≤ total avail_unit n pc

mover : (n : ℕ) (pc : ℕ → Pc) (i : ℕ) (p' : Pc) → i < n → Mover n pc i (pc i) p'
mover n pc i p' lt = record {
  here = refl;
  ovens = total-update at_oven n pc i p' lt;
  units = total-update oven_unit n pc i p' lt;
  bakers = total-update in_oven n pc i p' lt;
  tables = total-update at_table n pc i p' lt;
  places = total-update table_unit n pc i p' lt;
  news = total-update avail_unit n pc i p' lt;
  own_unit = le-total oven_unit n pc i lt;
  own_baker = le-total in_oven n pc i lt;
  own_place = le-total table_unit n pc i lt;
  own_news = le-total avail_unit n pc i lt;
}

module _ {n : ℕ} {m : Kitchen} {pc : ℕ → Pc} (inv : Inv n m pc) (i : ℕ) where
  open inv use {ring, stored, unique, pizzas, loaded}

  -- The fields that are equations between numbers.
  record Counts (m' : Kitchen) (p' : Pc) : Type 0 where
    oven_lk : m'.oven_lk + total at_oven n (update pc i p') ≡ 1
    oven_cap : m'.oven_cap + total oven_unit n (update pc i p') ≡ slots
    table_lk : m'.table_lk + total at_table n (update pc i p') ≡ 1
    table_cap : m'.table_cap + total table_unit n (update pc i p') + m'.ontable ≡ slots
    table_avail : m'.table_avail + total avail_unit n (update pc i p') ≡ m'.ontable
    full : occupied m'.ovenslots ≡ total in_oven n (update pc i p')
    counted : m'.inoven ≡ total in_oven n (update pc i p')
    width : length m'.ovenslots ≡ slots

  Move-Counts : {p p' : Pc} {m' : Kitchen} → Move m p m' p' → Mover n pc i p p' → Counts m' p'
  unfolding oven_remove table_put
  Move-Counts (prepare t lt) f = omega arith
  Move-Counts (insert {t} {slot} {m'} e) f =
      let done : Inserted t slot m m' = oven_insert-Inserted t slot m m' e in
      ground (
        arith,
        done.result,
        length-set m.ovenslots slot (pos t),
        occupied-set_vacant m.ovenslots slot t done.was_vacant,
      )
  Move-Counts (remove {t} {slot}) f = ground (
    arith,
    length-set m.ovenslots slot vacant,
    occupied-set_taken m.ovenslots slot t,
    stored i slot t,
  )
  Move-Counts (get {z} {m'} e) f = ground (arith, table_get-cleared m z m' e)
  Move-Counts mv f = omega (arith, guard mv)

  record Rings (m' : Kitchen) : Type 0 where
    ring : IsRing m'
    pizzas : AllPizzas (contents m')

  Move-Rings : {p p' : Pc} {m' : Kitchen} → Move m p m' p' → Mover n pc i p p' → Rings m'
  unfolding oven_remove
  Move-Rings (put {z}) f =
      let room : m.ontable < slots = omega (arith, inv.table_cap) in
      record {
        ring = table_put-IsRing z ring room;
        pizzas =
            subst AllPizzas (sym (contents-table_put z ring room))
              (AllPizzas-snoc (contents m) z pizzas (loaded i z (ground arith)));
      }
  Move-Rings (get {z} {m'} e) f =
      let some_left : 0 < m.ontable = omega (arith, inv.table_avail) in
      let after : m' ≡ cleared m = (table_get-cleared m z m' e).0 in
      subst Rings (sym after) (record {
        ring = cleared-IsRing ring some_left;
        pizzas = (subst AllPizzas (contents-cleared ring some_left) pizzas).1;
      })
  Move-Rings (insert {t} {slot} {m'} e) f =
      subst Rings (sym (oven_insert-Inserted t slot m m' e).result) (record {
        ring = record {
          width = ring.width;
          tail_in = ring.tail_in;
          head_at = ring.head_at;
          fits = ring.fits;
        };
        pizzas = pizzas;
      })
  Move-Rings mv f = record {
    ring = record {
      width = ring.width;
      tail_in = ring.tail_in;
      head_at = ring.head_at;
      fits = ring.fits;
    };
    pizzas = pizzas;
  }

  -- The fields about single processes.
  record Owners (m' : Kitchen) (pc' : ℕ → Pc) : Type 0 where
    stored :
        (j slot t : ℕ) → owns (pc' j) ≡ some (slot, t) → get_elem? m'.ovenslots slot ≡ some (pos t)
    unique :
        (j k slot t u : ℕ) → owns (pc' j) ≡ some (slot, t) → owns (pc' k) ≡ some (slot, u) → j ≡ k
    loaded : (j : ℕ) (z : ℤ) → carries (pc' j) ≡ some z → is_negative z ≡ false

  insert-Owners :
      (t slot : ℕ)
      → is_negative (get_or m.ovenslots slot (pos 0)) ≡ true
      → slot < length m.ovenslots
      → Owners
          (record m { ovenslots = set m.ovenslots slot (pos t); inoven = m.inoven + 1 })
          (update pc i (Pc.inserted t slot))
  insert-Owners t slot free inside = record {
    stored = λ j s u e. ground (
      arith,
      stored j s u,
      vacant-ne m.ovenslots slot s u free,
      get_elem?-set_self m.ovenslots slot (pos t),
      get_elem?-set_ne m.ovenslots {i = slot} {j = s} (pos t),
    );
    unique = λ j k s u v e d. ground (
      arith,
      unique j k s u v,
      stored j s u,
      stored k s v,
      vacant-ne m.ovenslots slot s u free,
      vacant-ne m.ovenslots slot s v free,
    );
    loaded = λ j z e. ground (arith, loaded j z);
  }

  Move-Owners :
      {p p' : Pc} {m' : Kitchen} → Move m p m' p' → Mover n pc i p p' → Owners m' (update pc i p')
  unfolding oven_remove table_put
  Move-Owners (insert {t} {slot} {m'} e) f =
      let done : Inserted t slot m m' = oven_insert-Inserted t slot m m' e in
      subst (λ k. Owners k (update pc i (Pc.inserted t slot))) (sym done.result)
        (insert-Owners t slot done.was_vacant done.inside)
  Move-Owners (remove {t} {slot}) f = record {
    stored = λ j s u e. ground (
      arith,
      stored j s u,
      unique j i s u t,
      get_elem?-set_ne m.ovenslots {i = slot} {j = s} vacant,
    );
    unique = λ j k s u v e d. ground (arith, unique j k s u v);
    loaded = λ j z e.
        ground
          (arith, loaded j z, stored i slot t, get_or-of-get_elem? m.ovenslots slot (pos t) vacant);
  }
  Move-Owners (get {z} {m'} e) f = record {
    stored = λ j s u d. ground (arith, stored j s u, table_get-cleared m z m' e);
    unique = λ j k s u v d d'. ground (arith, unique j k s u v);
    loaded = λ j x d. ground (arith, loaded j x);
  }
  Move-Owners mv f = record {
    stored = λ j slot t e. ground (arith, stored j slot t, stored i slot t);
    unique = λ j k slot t u e d.
        ground (arith, unique j k slot t u, unique j i slot t u, unique i k slot t u);
    loaded = λ j z e. ground (arith, loaded j z, loaded i z);
  }

  pub Move-Inv : {p' : Pc} {m' : Kitchen} → i < n → Move m (pc i) m' p' → Inv n m' (update pc i p')
  Move-Inv {p'} {m'} lt mv =
      let f : Mover n pc i (pc i) p' = mover n pc i p' lt in
      let counts : Counts m' p' = Move-Counts mv f in
      let rings : Rings m' = Move-Rings mv f in
      let owners : Owners m' (update pc i p') = Move-Owners mv f in
      record {
        ring = rings.ring;
        width = counts.width;
        oven_lk = counts.oven_lk;
        oven_cap = counts.oven_cap;
        table_lk = counts.table_lk;
        table_cap = counts.table_cap;
        table_avail = counts.table_avail;
        full = counts.full;
        counted = counts.counted;
        stored = owners.stored;
        unique = owners.unique;
        pizzas = rings.pizzas;
        loaded = owners.loaded;
      }
