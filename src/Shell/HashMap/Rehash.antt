-- ===== src/Shell/HashMap/Rehash.antt =====
-- The move of the keys of lab5/zad1/main.c to a larger table.
use sys_opy.Common.{
  ℕ, suc, ◌+◌, ◌^◌, ◌<◌, ◌≡◌, refl, sym, ap, ◌∙◌, if◌then◌else◌, str_eq, str_eq_iff, Option, none,
  some, List, [], ◌∷◌, length, set, arith, inl, inr, Bool-cases,
}
use mathlib.Core.Option.{some-injective}
use sys_opy.Shell.HashMap.{Key, HashCell, empty_cell, rehash}
use sys_opy.Shell.HashMap.Probe.{cell_at, Fits}
use sys_opy.Shell.HashMap.Assoc.{
  assoc, assoc_nil, assoc_empty, assoc-filled, filled, holds, holds-true, Only, Absent, assoc-none,
  assoc-found, assoc-set,
}
use sys_opy.Shell.HashMap.Cells.{
  Whole, occupied, occupied_nil, occupied_cons, weight-none, weight-some, occupied-set,
}
use sys_opy.Shell.HashMap.Search.{find, find-total, get_cell-find, IsTable}
use sys_opy.Shell.HashMap.Write.{IsTable-write}

module _ {ℓ} {V : Type ℓ} where
  pub orelse : Option V → Option V → Option V
  orelse none b = b
  orelse (some a) b = some a

  pub orelse-none : (a : Option V) → orelse a none ≡ a
  unfolding orelse
  orelse-none none = refl
  orelse-none (some a) = refl

  -- No key twice.
  abbrev pub Distinct : List (HashCell V) → Type 0
  Distinct tab =
      (i j : ℕ) (k : Key) → (cell_at tab i).key ≡ some k → (cell_at tab j).key ≡ some k → i ≡ j

  pub IsTable-Distinct : (c : ℕ) (tab : List (HashCell V)) → IsTable c tab → Distinct tab
  IsTable-Distinct c tab t i j k a b = some-injective i j (sym (t.placed i k a) ∙ t.placed j k b)

  Whole-paired : (cell : HashCell V) → Whole cell → cell.key ≡ none → cell.val ≡ none
  Whole-paired cell (inl e) h = rw e refl
  Whole-paired cell (inr (k, v, e)) h = absurd (cc (h, ap (λ r. r.key) e))

  Whole-empty : (cell : HashCell V) → Whole cell → cell.val ≡ none → cell.key ≡ none
  Whole-empty cell (inl e) h = rw e refl
  Whole-empty cell (inr (k, v, e)) h = absurd (cc (h, ap (λ r. r.val) e))

  -- Where a search ends, what the table holds there.
  pub find-assoc :
      (c : ℕ) (tab : List (HashCell V))
      → IsTable c tab
      → occupied tab < 2 ^ c
      → (k : Key)
      → (j : ℕ) × (find tab (2 ^ c) k ≡ some j)
        × (j < length tab)
        × Fits k (cell_at tab j)
        × Only k tab j
        × (assoc k tab ≡ (cell_at tab j).val)
  find-assoc c tab t free k =
      let (j, e, lt, fits, only) = find-total c tab t free k in
      (
        j,
        e,
        lt,
        fits,
        only,
        assoc-found k tab j lt only fits (Whole-paired (cell_at tab j) (t.whole j)),
      )

  -- A key that the table does not have gets a cell.
  pub insert_new :
      (c : ℕ) (tab : List (HashCell V))
      → IsTable c tab
      → occupied tab < 2 ^ c
      → (k : Key) (v : V) → assoc k tab ≡ none
      → (j : ℕ) × (find tab (2 ^ c) k ≡ some j)
        × IsTable c (set tab j (filled k v))
        × (occupied (set tab j (filled k v)) ≡ suc (occupied tab))
        × ((q : Key)
            → assoc q (set tab j (filled k v)) ≡ (if str_eq q k then some v else assoc q tab))
  insert_new c tab t free k v fresh =
      let (j, e, lt, fits, only, at) = find-assoc c tab t free k in
      let vacant = Whole-empty (cell_at tab j) (t.whole j) (sym at ∙ fresh) in
      (
        j,
        e,
        IsTable-write c tab t k v j lt e only,
        omega (arith, occupied-set tab j k v lt, weight-none (cell_at tab j).key vacant),
        λ q. assoc-set k v q tab j lt only fits,
      )

  rehash_nil : (tab : List (HashCell V)) (n : ℕ) → rehash tab n [] ≡ some tab
  unfolding rehash
  rehash_nil tab n = refl

  rehash_empty :
      (tab : List (HashCell V)) (n : ℕ) (old : List (HashCell V))
      → rehash tab n (empty_cell ∷ old) ≡ rehash tab n old
  unfolding rehash
  rehash_empty tab n old = refl

  rehash-filled :
      (c : ℕ) (tab : List (HashCell V)) (k : Key) (v : V) (old : List (HashCell V)) (j : ℕ)
      → find tab (2 ^ c) k ≡ some j
      → rehash tab (2 ^ c) (filled k v ∷ old) ≡ rehash (set tab j (filled k v)) (2 ^ c) old
  unfolding rehash
  rehash-filled c tab k v old j e = rw (get_cell-find tab c k, e) refl

  tail-Distinct :
      (cell : HashCell V) (old : List (HashCell V)) → Distinct (cell ∷ old) → Distinct old
  tail-Distinct cell old d i j k a b = omega (arith, d (suc i) (suc j) k a b)

  -- The keys of the first table are not in the second.
  abbrev pub Apart : List (HashCell V) → List (HashCell V) → Type ℓ
  Apart old tab = (i : ℕ) (k : Key) → (cell_at old i).key ≡ some k → assoc k tab ≡ none

  abbrev pub Moved : ℕ → List (HashCell V) → List (HashCell V) → List (HashCell V) → Type ℓ
  Moved c old tab tab' =
      IsTable c tab'
      × (occupied tab' ≡ occupied old + occupied tab)
      × ((q : Key) → assoc q tab' ≡ orelse (assoc q old) (assoc q tab))

  head-Absent :
      (k : Key) (v : V) (old : List (HashCell V)) → Distinct (filled k v ∷ old) → Absent k old
  head-Absent k v old d i = elim (Bool-cases (holds k (cell_at old i).key)) [
    | inl h ↦ absurd (omega (arith, d 0 (suc i) k refl (holds-true k (cell_at old i).key h)))
    | inr h ↦ h
  ]

  orelse_moved :
      (q k : Key) (v : V) (a b : Option V)
      → (q ≡ k → a ≡ none)
      → orelse a (if str_eq q k then some v else b) ≡ orelse (if str_eq q k then some v else a) b
  unfolding orelse
  orelse_moved q k v a b gone = elim (Bool-cases (str_eq q k)) [
    | inl e ↦ rw (e, gone ((str_eq_iff q k).0 e)) refl
    | inr e ↦ rw e refl
  ]

  Moved-empty :
      (c : ℕ) (old tab tab' : List (HashCell V))
      → Moved c old tab tab'
      → Moved c (empty_cell ∷ old) tab tab'
  unfolding orelse
  Moved-empty c old tab tab' (t, n, get) = (
    t,
    omega (arith, n, occupied_cons empty_cell old, weight-none none refl),
    λ q. get q ∙ ap (λ o. orelse o (assoc q tab)) (sym (assoc_empty q old)),
  )

  Moved-filled :
      (c : ℕ) (k : Key) (v : V) (old tab mid tab' : List (HashCell V))
      → Distinct (filled k v ∷ old)
      → occupied mid ≡ suc (occupied tab)
      → ((q : Key) → assoc q mid ≡ (if str_eq q k then some v else assoc q tab))
      → Moved c old mid tab'
      → Moved c (filled k v ∷ old) tab tab'
  Moved-filled c k v old tab mid tab' d one at (t, n, get) = (
    t,
    omega (arith, n, one, occupied_cons (filled k v) old, weight-some (some k) k refl),
    λ q.
        get q
        ∙ ap (orelse (assoc q old)) (at q)
        ∙ orelse_moved q k v (assoc q old) (assoc q tab)
            (λ e. rw e (assoc-none k old (head-Absent k v old d)))
        ∙ ap (λ o. orelse o (assoc q tab)) (sym (assoc-filled q k v old)),
  )

  Apart-next :
      (k : Key) (v : V) (old tab mid : List (HashCell V))
      → Distinct (filled k v ∷ old)
      → ((q : Key) → assoc q mid ≡ (if str_eq q k then some v else assoc q tab))
      → Apart (filled k v ∷ old) tab
      → Apart old mid
  Apart-next k v old tab mid d at a i q h = elim (Bool-cases (str_eq q k)) [
    | inl e ↦ absurd (omega (arith, d 0 (suc i) k refl (h ∙ ap some ((str_eq_iff q k).0 e))))
    | inr e ↦ at q ∙ rw e (a (suc i) q h)
  ]

  -- The loop over the old cells keeps every key with its value.
  pub rehash-Moved :
      (c : ℕ) (old tab : List (HashCell V))
      → ((j : ℕ) → Whole (cell_at old j))
      → Distinct old
      → Apart old tab
      → IsTable c tab
      → occupied old + occupied tab < 2 ^ c
      → (tab' : List (HashCell V)) × (rehash tab (2 ^ c) old ≡ some tab') × Moved c old tab tab'
  unfolding orelse
  rehash-Moved c [] tab w d a t free =
      let old : List (HashCell V) = [] in
      (
        tab,
        rehash_nil tab (2 ^ c),
        (
          t,
          omega (arith, occupied_nil old refl),
          λ q. sym (ap (λ o. orelse o (assoc q tab)) (assoc_nil q)),
        ),
      )
  rehash-Moved c (cell ∷ old) tab w d a t free = elim (w 0) [
    | inl e ↦
        let (tab', run, moved) =
          rehash-Moved c old tab (λ j. w (suc j)) (tail-Distinct cell old d) (λ i. a (suc i)) t
            (omega (arith, free, occupied_cons cell old)) in
        rw e (tab', rehash_empty tab (2 ^ c) old ∙ run, Moved-empty c old tab tab' moved)
    | inr (k, v, e) ↦
        let d' : Distinct (filled k v ∷ old) = rw (← e) d in
        let a' : Apart (filled k v ∷ old) tab = rw (← e) a in
        let count : occupied (cell ∷ old) ≡ suc (occupied old) =
          omega (arith, occupied_cons cell old, weight-some cell.key k (ap (λ r. r.key) e)) in
        let (j, found, t', one, at) =
          insert_new c tab t (omega (arith, free, count)) k v (a 0 k (ap (λ r. r.key) e)) in
        let mid = set tab j (filled k v) in
        let (tab', run, moved) =
          rehash-Moved c old mid (λ i. w (suc i)) (tail-Distinct cell old d)
            (Apart-next k v old tab mid d' at a') t' (omega (arith, free, count, one)) in
        rw e (
          tab',
          rehash-filled c tab k v old j found ∙ run,
          Moved-filled c k v old tab mid tab' d' one at moved,
        )
  ]
