-- ===== src/Pizzeria/Table.antt =====
-- lab7/main.c: the table as a queue. `tableslots` is a circular buffer from `tabletail` on; what it
-- holds, oldest first, is `contents`.
use sys_opy.Common.{
  sym, ◌∙◌, ℕ, zero, suc, ◌+◌, ◌-◌, ◌%◌, ◌<◌, ◌≤◌, ◌≡◌, refl, ◌≢◌, ◌⊎◌, inl, ap, ap₂, false, some,
  List, [], ◌∷◌, ◌++◌, arith, length, get_or, set, length-set,
}
use mathlib.Core.Path.{subst}
use sys_opy.Common.Int.{ℤ}
use sys_opy.Pizzeria.{Kitchen, slots, vacant, is_negative, table_put, table_get}

-- The items of the `n` slots from index `h` on, going round.
abbrev pub window : List ℤ → ℕ → ℕ → List ℤ
window buf h zero = []
window buf h (suc n) = get_or buf h vacant ∷ window buf ((h + 1) % slots) n

abbrev pub contents : Kitchen → List ℤ
contents m = window m.tableslots m.tabletail m.ontable

-- The buffer's bookkeeping: the two ends lie inside it, `ontable` slots apart.
pub record IsRing (m : Kitchen) : Type 0 where
  pub width : length m.tableslots ≡ slots
  pub tail_in : m.tabletail < slots
  pub head_at : m.tablehead ≡ (m.tabletail + m.ontable) % slots
  pub fits : m.ontable ≤ slots

abbrev pub AllPizzas : List ℤ → Type 0
AllPizzas [] = Unit
AllPizzas (z ∷ zs) = (is_negative z ≡ false) × AllPizzas zs

pub AllPizzas-snoc :
    (zs : List ℤ) (z : ℤ) → AllPizzas zs → is_negative z ≡ false → AllPizzas (zs ++ z ∷ [])
AllPizzas-snoc [] z h e = (e, tt)
AllPizzas-snoc (x ∷ zs) z h e = (h.0, AllPizzas-snoc zs z h.1 e)

get_or-set_self : (xs : List ℤ) (i : ℕ) (v : ℤ) → i < length xs → get_or (set xs i v) i vacant ≡ v
get_or-set_self [] i v h = absurd (omega arith)
get_or-set_self (x ∷ xs) zero v h = refl
get_or-set_self (x ∷ xs) (suc i) v h = get_or-set_self xs i v (omega arith)

get_or-set_ne :
    (xs : List ℤ) (i j : ℕ) (v : ℤ) → i ≢ j → get_or (set xs i v) j vacant ≡ get_or xs j vacant
get_or-set_ne [] i j v h = refl
get_or-set_ne (x ∷ xs) zero zero v h = absurd (h refl)
get_or-set_ne (x ∷ xs) zero (suc j) v h = refl
get_or-set_ne (x ∷ xs) (suc i) zero v h = refl
get_or-set_ne (x ∷ xs) (suc i) (suc j) v h = get_or-set_ne xs i j v (λ e. h (ap suc e))

-- A write just past the window extends it.
window-set_end :
    (buf : List ℤ) (n h i : ℕ) (v : ℤ)
    → length buf ≡ slots
    → h < slots
    → n < slots
    → i ≡ (h + n) % slots
    → window (set buf i v) h (suc n) ≡ window buf h n ++ v ∷ []
window-set_end buf zero h i v hl hh hn e =
    let same : i ≡ h = omega arith in rw (same, get_or-set_self buf h v (omega arith))
window-set_end buf (suc n) h i v hl hh hn e =
    ap₂ ◌∷◌ (get_or-set_ne buf i h v (omega arith))
      (window-set_end buf n ((h + 1) % slots) i v hl (omega arith) (omega arith) (omega arith))

-- A write at the slot just before a window that does not come round to it changes nothing.
window-set_before :
    (buf : List ℤ) (n h i : ℕ) (v : ℤ)
    → i < slots
    → h < slots
    → (h + slots - i) % slots + n ≤ slots
    → (h ≢ i) ⊎ (n ≡ 0)
    → window (set buf i v) h n ≡ window buf h n
window-set_before buf zero h i v hi hh k o = refl
window-set_before buf (suc n) h i v hi hh k o =
    ap₂ ◌∷◌ (get_or-set_ne buf i h v (omega arith))
      (window-set_before buf n ((h + 1) % slots) i v hi (omega arith) (omega arith) (omega arith))

-- A cook's put appends to the queue, if a slot is free.
pub contents-table_put :
    {m : Kitchen} (z : ℤ)
    → IsRing m
    → m.ontable < slots
    → contents (table_put z m) ≡ contents m ++ z ∷ []
unfolding table_put
contents-table_put {m} z v h = ground (
  arith,
  window-set_end m.tableslots m.ontable m.tabletail m.tablehead z v.width v.tail_in h v.head_at,
)

pub table_put-IsRing : {m : Kitchen} (z : ℤ) → IsRing m → m.ontable < slots → IsRing (table_put z m)
unfolding table_put
table_put-IsRing {m} z v h = record {
  width = length-set m.tableslots m.tablehead z ∙ v.width;
  tail_in = v.tail_in;
  head_at = omega (arith, v.head_at);
  fits = omega arith;
}

-- `window` matches on `suc`, the code counts `ontable` down.
window_of_pos :
    (buf : List ℤ) (h n : ℕ)
    → 0 < n
    → window buf h n ≡ get_or buf h vacant ∷ window buf ((h + 1) % slots) (n - 1)
window_of_pos buf h zero p = absurd (omega arith)
window_of_pos buf h (suc n) p = ap (λ k. window buf h (suc k)) (omega arith)

-- The kitchen after a deliverer has cleared the slot at `tabletail`.
abbrev pub cleared : Kitchen → Kitchen
cleared m = record m {
  tableslots = set m.tableslots m.tabletail vacant;
  tabletail = (m.tabletail + 1) % slots;
  ontable = m.ontable - 1;
}

pub contents-cleared :
    {m : Kitchen}
    → IsRing m
    → 0 < m.ontable
    → contents m ≡ get_or m.tableslots m.tabletail vacant ∷ contents (cleared m)
contents-cleared {m} v p =
    window_of_pos m.tableslots m.tabletail m.ontable p
    ∙ ap (λ q. get_or m.tableslots m.tabletail vacant ∷ q)
        (sym (
          window-set_before m.tableslots (m.ontable - 1) ((m.tabletail + 1) % slots) m.tabletail
            vacant v.tail_in (omega arith) (omega (arith, v.tail_in, v.fits))
            (inl (omega (arith, v.tail_in)))))

pub cleared-IsRing : {m : Kitchen} → IsRing m → 0 < m.ontable → IsRing (cleared m)
cleared-IsRing {m} v p = record {
  width = length-set m.tableslots m.tabletail vacant ∙ v.width;
  tail_in = omega arith;
  head_at = omega (arith, v.head_at, v.tail_in);
  fits = omega (arith, v.fits);
}

-- What a get that passes its assertion has done.
pub table_get-cleared :
    (m : Kitchen) (z : ℤ) (m' : Kitchen)
    → table_get m ≡ some (z, m')
    → (m' ≡ cleared m) × (z ≡ get_or m.tableslots m.tabletail vacant) × (is_negative z ≡ false)
unfolding table_get
table_get-cleared m z m' e = ground arith

-- A deliverer takes the pizza that has lain longest, and its assertion holds: on a table that holds
-- pizzas and is not empty, the get succeeds, the queue is that pizza followed by what is left, and
-- the buffer's bookkeeping is kept.
pub table_get_lem :
    {m : Kitchen}
    → IsRing m
    → AllPizzas (contents m)
    → 0 < m.ontable
    → (z : ℤ) × (m' : Kitchen) × (table_get m ≡ some (z, m'))
      × (contents m ≡ z ∷ contents m')
      × IsRing m'
unfolding table_get
table_get_lem {m} v pizzas p =
    let z : ℤ = get_or m.tableslots m.tabletail vacant in
    let split : contents m ≡ z ∷ contents (cleared m) = contents-cleared v p in
    let good : is_negative z ≡ false = (subst AllPizzas split pizzas).0 in
    (z, cleared m, rw good, split, cleared-IsRing v p)
