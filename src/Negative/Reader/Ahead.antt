-- ===== src/Negative/Reader/Ahead.antt =====
-- Each turn of the reader of lab8/main.c leads to a later state.
use sys_opy.Common.{
  ℕ, zero, suc, ◌-◌, ◌%◌, ◌^◌, ◌<◌, ◌≤◌, ◌≡◌, refl, Bool, true, false, ◌&&◌, ◌||◌, ltb, ◌==◌, some,
  List, [], ◌∷◌, ◌++◌, length, Bool-cases, Option-cases, ◌⊎◌, inl, inr, arith,
}
use sys_opy.Common.Int.{ℤ, pos, negsuc}
use sys_opy.BlankLines.{isspace}
use sys_opy.Strtol.{strtol}
use sys_opy.Negative.Tokens.{
  Reader, Turn, more, again, badformat, overflow, readfinish, blanks, comment, magic, kind,
  behind_token, set_number, number, limit, oversized, is_above,
}
use sys_opy.Negative.Reader.{values, next_value, Value, wanted, wrong, got, stored, switch}

-- Where the loop goes on, the state is the same.
abbrev pub Same : ℕ → Turn → Type 0
Same s (again r p) = r.state ≡ s
Same s other = Unit

-- Where the loop goes on, the state is a later one.
abbrev pub Ahead : ℕ → Turn → Type 0
Ahead s (again r p) = (s < r.state) × (r.state ≤ 4)
Ahead s other = Unit

abbrev pub Ends : Turn → Type 0
Ends (again r p) = ⊥
Ends other = Unit

pub blanks-Same : (r : Reader) (p : List ℕ) → Same r.state (blanks r p)
unfolding blanks
blanks-Same r p = ground arith

pub comment-Same : (r : Reader) (p : List ℕ) → Same r.state (comment r p)
unfolding comment
comment-Same r p = ground arith

behind_token-Ahead :
    (s c : ℕ) (r : Reader) (p : List ℕ) → s < r.state → r.state ≤ 4 → Ahead s (behind_token r c p)
unfolding behind_token
behind_token-Ahead s c r p lt le = ground arith

kind_at :
    (a b c : ℕ) (cs : List ℕ) (r : Reader)
    → r.state ≡ 0
    → Ahead r.state (magic r (a ∷ (b ∷ (c ∷ cs))))
unfolding magic
kind_at a b c cs r e = elim (Bool-cases (a == b'P')) [
  | inr no_p ↦ rw no_p tt
  | inl p ↦ elim (Option-cases (kind b r.format)) [
    | inl none_known ↦ rw (p, none_known) tt
    | inr (f, known) ↦
        rw (p, known)
          (behind_token-Ahead r.state c (record r { state = 1; format = f }) cs (omega (arith, e))
            (omega arith))
  ]
]

magic-Ahead : (r : Reader) (p : List ℕ) → r.state ≡ 0 → Ahead r.state (magic r p)
unfolding magic
magic-Ahead r [] e = tt
magic-Ahead r (a ∷ []) e = tt
magic-Ahead r (a ∷ (b ∷ [])) e = tt
magic-Ahead r (a ∷ (b ∷ (c ∷ cs))) e = kind_at a b c cs r e

set_number-later :
    (val : ℕ) (r : Reader)
    → r.state < 4
    → (r.state < (set_number val r).state) × ((set_number val r).state ≤ 4)
unfolding set_number
set_number-later val r lt = ground arith

-- The number by what `strtol` has found.
number_found :
    (r : Reader) (p : List ℕ) (val : ℤ) (fits : Bool) (rest : List ℕ)
    → r.state < 4
    → strtol p ≡ some (val, fits, rest)
    → Ahead r.state (number r p)
unfolding number
number_found r p val false rest lt e = rw (e, number) tt
number_found r p val true [] lt e = rw (e, number) tt
number_found r p (negsuc n) true (c ∷ cs) lt e = rw (e, number) tt
number_found r p (pos zero) true (c ∷ cs) lt e = rw (e, number) tt
number_found r p (pos (suc n)) true (c ∷ cs) lt e =
    let r' = set_number (suc n % 2 ^ 32) r in
    let (after, le) = set_number-later (suc n % 2 ^ 32) r lt in
    elim (Bool-cases ((r'.state == 4) && oversized r'.format)) [
      | inr small ↦ rw (e, small, number) (behind_token-Ahead r.state c r' cs after le)
      | inl large ↦ elim (Bool-cases ((c == b'#') || isspace c)) [
        | inl t ↦ rw (e, large, t, number) tt
        | inr t ↦ rw (e, large, t, number) tt
      ]
    ]

number-Ahead : (r : Reader) (p : List ℕ) → r.state < 4 → Ahead r.state (number r p)
unfolding number
number-Ahead r p lt = elim (Option-cases (strtol p)) [
  | inl e ↦ rw (e, number) tt
  | inr ((val, fits, rest), e) ↦ number_found r p val fits rest lt e
]

Value-cases :
    (v : Value)
    → ((p : List ℕ) × (v ≡ wanted p)) ⊎ ((v ≡ wrong) ⊎ ((val : ℕ) × (p : List ℕ) × (v ≡ got val p)))
Value-cases (wanted p) = inl (p, refl)
Value-cases wrong = inr (inl refl)
Value-cases (got val p) = inr (inr (val, p, refl))

pub values-Ends : (n : ℕ) (r : Reader) (p : List ℕ) → Ends (values n r p)
unfolding values
values-Ends zero r p = tt
values-Ends (suc n) r p = elim (Bool-cases (ltb (length r.image) (limit r.format))) [
  | inr full ↦ rw full tt
  | inl room ↦ elim (Value-cases (next_value r.format (length r.image) p)) [
    | inl (p', e) ↦ rw (room, e) tt
    | inr (inl e) ↦ rw (room, e) tt
    | inr (inr (val, p', e)) ↦ elim (Bool-cases (is_above r.format.maxval val)) [
      | inl large ↦ rw (room, e, large) tt
      | inr small ↦
          rw (room, e, small)
            (values-Ends n (record r { image = r.image ++ stored r.format val }) p')
    ]
  ]
]

pub Ends-Ahead : (s : ℕ) (t : Turn) → Ends t → Ahead s t
Ends-Ahead s (more r p) h = tt
Ends-Ahead s (again r p) h = absurd h
Ends-Ahead s badformat h = tt
Ends-Ahead s overflow h = tt
Ends-Ahead s (readfinish r) h = tt

pub switch-Ahead : (r : Reader) (p : List ℕ) → Ahead r.state (switch r p)
unfolding switch
switch-Ahead r p = elim (Bool-cases (r.state == 0)) [
  | inl first ↦ rw first (magic-Ahead r p (ground (arith, first)))
  | inr later ↦ elim (Bool-cases (ltb r.state 4)) [
    | inl lt ↦ rw (later, lt) (number-Ahead r p (ground (arith, lt)))
    | inr end ↦
        let n = limit r.format - length r.image in
        rw (later, end) (Ends-Ahead r.state (values n r p) (values-Ends n r p))
  ]
]
