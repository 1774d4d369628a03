-- ===== src/Pizzeria/Oven.antt =====
-- lab7/main.c: the oven's slots. How many are taken, and what the two critical sections of
-- `cook_main` that touch the oven do to them.
use sys_opy.Common.{
  ℕ, zero, suc, ◌+◌, ◌<◌, ◌≡◌, ◌≢◌, refl, inl, inr, true, if◌then◌else◌, some, List, [], ◌∷◌, arith,
  length, get_elem?, get_or, set, Bool-cases,
}
use sys_opy.Common.Int.{ℤ, pos, negsuc}
use sys_opy.Pizzeria.{Kitchen, vacant, is_negative, find_slot, oven_insert}

-- The number of slots that hold a pizza.
abbrev pub occupied : List ℤ → ℕ
occupied [] = 0
occupied (z ∷ zs) = (if is_negative z then 0 else 1) + occupied zs

find_slot_from : (zs : List ℤ) (i : ℕ) → find_slot zs i ≡ i + find_slot zs 0
unfolding find_slot
find_slot_from [] i = omega arith
find_slot_from (z ∷ zs) i = ground (arith, find_slot_from zs (suc i), find_slot_from zs 1)

-- If a slot is vacant, the search ends at a vacant slot inside the oven.
pub find_slot-vacant :
    (zs : List ℤ)
    → occupied zs < length zs
    → (find_slot zs 0 < length zs) × (is_negative (get_or zs (find_slot zs 0) (pos 0)) ≡ true)
unfolding find_slot
find_slot-vacant [] h = absurd (omega arith)
find_slot-vacant (negsuc k ∷ zs) h = (omega arith, refl)
find_slot-vacant (pos k ∷ zs) h =
    let (below, free) = find_slot-vacant zs (omega arith) in
    let e : find_slot zs 1 ≡ suc (find_slot zs 0) = omega (arith, find_slot_from zs 1) in
    rw e (omega arith, free)

pub occupied-set_vacant :
    (zs : List ℤ) (i t : ℕ)
    → is_negative (get_or zs i (pos 0)) ≡ true
    → occupied (set zs i (pos t)) ≡ occupied zs + 1
occupied-set_vacant [] i t h = cc
occupied-set_vacant (z ∷ zs) zero t h = ground arith
occupied-set_vacant (z ∷ zs) (suc i) t h = omega (arith, occupied-set_vacant zs i t h)

pub occupied-set_taken :
    (zs : List ℤ) (i t : ℕ)
    → get_elem? zs i ≡ some (pos t)
    → occupied (set zs i vacant) + 1 ≡ occupied zs
occupied-set_taken [] i t h = cc
occupied-set_taken (z ∷ zs) zero t h = ground arith
occupied-set_taken (z ∷ zs) (suc i) t h = omega (arith, occupied-set_taken zs i t h)

pub get_or-of-get_elem? :
    (zs : List ℤ) (i : ℕ) (z d : ℤ) → get_elem? zs i ≡ some z → get_or zs i d ≡ z
get_or-of-get_elem? [] i z d h = cc
get_or-of-get_elem? (x ∷ zs) zero z d h = cc
get_or-of-get_elem? (x ∷ zs) (suc i) z d h = get_or-of-get_elem? zs i z d h

-- A slot that holds a pizza is not a vacant one.
pub vacant-ne :
    (zs : List ℤ) (i j t : ℕ)
    → is_negative (get_or zs i (pos 0)) ≡ true
    → get_elem? zs j ≡ some (pos t)
    → i ≢ j
vacant-ne [] i j t h k e = cc
vacant-ne (z ∷ zs) zero zero t h k e = ground arith
vacant-ne (z ∷ zs) zero (suc j) t h k e = absurd (omega arith)
vacant-ne (z ∷ zs) (suc i) zero t h k e = absurd (omega arith)
vacant-ne (z ∷ zs) (suc i) (suc j) t h k e = vacant-ne zs i j t h k (omega arith)

in_range : (zs : List ℤ) (i : ℕ) → is_negative (get_or zs i (pos 0)) ≡ true → i < length zs
in_range [] i h = cc
in_range (z ∷ zs) zero h = omega arith
in_range (z ∷ zs) (suc i) h = omega (arith, in_range zs i h)

-- What an insertion that passes its assertion has done.
pub record Inserted (type slot : ℕ) (m m' : Kitchen) : Type 0 where
  pub result : m' ≡ record m { ovenslots = set m.ovenslots slot (pos type); inoven = m.inoven + 1 }
  pub was_vacant : is_negative (get_or m.ovenslots slot (pos 0)) ≡ true
  pub inside : slot < length m.ovenslots

pub oven_insert-Inserted :
    (type slot : ℕ) (m m' : Kitchen)
    → oven_insert type m ≡ some (slot, m')
    → Inserted type slot m m'
unfolding oven_insert
oven_insert-Inserted type slot m m' e =
    elim (Bool-cases (is_negative (get_or m.ovenslots (find_slot m.ovenslots 0) (pos 0)))) [
      | inl vac ↦
          let same : slot ≡ find_slot m.ovenslots 0 = ground arith in
          record {
            result = ground arith;
            was_vacant = rw same vac;
            inside = rw same (in_range m.ovenslots _ vac);
          }
      | inr full ↦ absurd (ground arith)
    ]
