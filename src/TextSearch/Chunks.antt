-- ===== src/TextSearch/Chunks.antt =====
-- The search of lab3/zad3/main.c through a file in pieces, against the text as a part of the file.
use mathlib.Core.Path.{subst}
use sys_opy.Common.{
  ℕ, zero, suc, ◌+◌, ◌-◌, ◌≤◌, ◌<◌, min, ◌≡◌, refl, sym, ap, ◌∙◌, Bool, true, false, ltb, ◌==◌,
  Option, none, some, ◌++◌, length, length-take, length-drop, take, drop, drop-drop, Bool-cases,
  Option-cases, inl, inr, ◌⊎◌, arith,
}
use sys_opy.DirWalk.{Text}
use sys_opy.TextSearch.{
  memmem, Search, found, absent, Round, again, over, want, look, search_round, search_loop,
}
use sys_opy.TextSearch.Occurs.{
  Contains, At, Contains-At, At-Contains, At-room, memmem-some, memmem-none, take-drop-take,
  take-take-drop, drop-take_add, take-length,
}

module _ (needle : Text) (shebangchk : Bool) where
  pub loop_over :
      (fuel : ℕ) (first : Bool) (kept rest : Text) (out : Search)
      → search_round needle shebangchk first kept rest ≡ over out
      → search_loop (suc fuel) needle shebangchk first kept rest ≡ some out
  unfolding search_loop
  loop_over fuel first kept rest out e = rw (e, search_loop) refl

  pub loop_again :
      (fuel : ℕ) (first : Bool) (kept rest kept' rest' : Text)
      → search_round needle shebangchk first kept rest ≡ again kept' rest'
      → search_loop (suc fuel) needle shebangchk first kept rest
        ≡ search_loop fuel needle shebangchk false kept' rest'
  unfolding search_loop
  loop_again fuel first kept rest kept' rest' e = rw (e, search_loop) refl

module _ (needle bytes : Text) (pos : 0 < length needle) where
  abbrev pub size : ℕ
  size = length needle

  abbrev pub total : ℕ
  total = length bytes

  -- The search ends with the right answer.
  abbrev pub Settled : Option Search → Type 0
  Settled out =
      ((out ≡ some found) × Contains needle bytes)
      ⊎ ((out ≡ some absent) × (Contains needle bytes → ⊥))

  -- The text does not stand at the first places.
  abbrev pub Clear : ℕ → Type 0
  Clear n = (i : ℕ) → i < n → At i needle bytes → ⊥

  -- The part of the file in the buffer.
  abbrev pub part : ℕ → ℕ → Text
  part o len = take len (drop o bytes)

  not_contained : (n : ℕ) → Clear n → total < n + size → Contains needle bytes → ⊥
  not_contained n clear far c =
      let (i, e) = Contains-At needle bytes c in
      clear i (omega (arith, far, At-room i needle bytes pos e)) e

  part-At : (o len i : ℕ) → i + size ≤ len → At i needle (part o len) ≡ At (o + i) needle bytes
  part-At o len i le =
      ap (λ t. t ≡ needle)
        (take-drop-take i size len (drop o bytes) le ∙ ap (take size) (sym (drop-drop o i bytes)))

  length-part : (o len : ℕ) → o + len ≤ total → length (part o len) ≡ len
  length-part o len le = omega (arith, length-take len (drop o bytes), length-drop o bytes)

  -- Nothing in the buffer: the places that it shows are clear.
  Clear-more :
      (o len : ℕ)
      → o + len ≤ total
      → size ≤ len
      → memmem (part o len) needle ≡ none
      → Clear o
      → Clear (o + (len - size) + 1)
  Clear-more o len le fits h clear i lt e = elim (Bool-cases (ltb i o)) [
    | inl t ↦ clear i (ground (arith, t)) e
    | inr f ↦
        let low : o ≤ i = ground (arith, f) in
        let j = i - o in
        let same : i ≡ o + j = omega arith in
        let room : j + size ≤ len = omega arith in
        let here : At (o + j) needle bytes = subst (λ t. At t needle bytes) same e in
        memmem-none (part o len) needle h j (omega (arith, length-part o len le))
          (subst (λ T. T) (sym (part-At o len j room)) here)
  ]

  found_in : (o len i : ℕ) → At i needle (part o len) → Contains needle bytes
  found_in o len i e =
      let room : i + size ≤ len =
        omega (arith, At-room i needle (part o len) pos e, length-take len (drop o bytes)) in
      At-Contains (o + i) needle bytes (subst (λ T. T) (part-At o len i room) e)

  -- What a look at a part of the file leads to.
  pub data Looked (o len : ℕ) : Round → Type 0 where
    hit : Contains needle bytes → Looked o len (over found)
    miss :
        Clear (o + (len - size) + 1)
        → Looked o len (again (part (o + (len - size)) size) (drop (o + len) bytes))

  kept_part :
      (o len : ℕ)
      → o + len ≤ total
      → size ≤ len
      → drop (length (part o len) - size) (part o len) ≡ part (o + (len - size)) size
  kept_part o len le fits =
      let g = len - size in
      let all : len ≡ g + size = omega (arith, fits) in
      let places : length (part o len) - size ≡ g = omega (arith, length-part o len le) in
      ap (λ t. drop t (part o len)) places
      ∙ (ap (λ t. drop g (take t (drop o bytes))) all
          ∙ (drop-take_add g size (drop o bytes) ∙ ap (take size) (sym (drop-drop o g bytes))))

  look_hit :
      (o len : ℕ) (ptr : Text)
      → memmem (part o len) needle ≡ some ptr
      → look needle (part o len) (drop (o + len) bytes) ≡ over found
  unfolding look
  look_hit o len ptr e = rw (e, look) refl

  look_miss :
      (o len : ℕ)
      → o + len ≤ total
      → size ≤ len
      → memmem (part o len) needle ≡ none
      → look needle (part o len) (drop (o + len) bytes)
        ≡ again (part (o + (len - size)) size) (drop (o + len) bytes)
  unfolding look
  look_miss o len le fits e =
      let enough : ltb (length (part o len)) size ≡ false =
        ground (arith, length-part o len le, fits) in
      rw (e, enough, kept_part o len le fits, look) refl

  pub look_lem :
      (o len : ℕ)
      → o + len ≤ total
      → size ≤ len
      → Clear o
      → Looked o len (look needle (part o len) (drop (o + len) bytes))
  look_lem o len le fits clear = elim (Option-cases (memmem (part o len) needle)) [
    | inl e ↦
        subst (Looked o len) (sym (look_miss o len le fits e))
          (miss (Clear-more o len le fits e clear))
    | inr (ptr, e) ↦
        let (i, here) = memmem-some (part o len) needle ptr e in
        subst (Looked o len) (sym (look_hit o len ptr e)) (hit (found_in o len i here))
  ]

  module _ (shebangchk : Bool) where
    round_end :
        (kept rest : Text)
        → length rest ≡ 0
        → search_round needle shebangchk false kept rest ≡ over absent
    unfolding search_round
    round_end kept rest e =
        let nothing : (length (take (want needle false) rest) == 0) ≡ true =
          ground (arith, length-take (want needle false) rest, e) in
        rw nothing refl

    round_look :
        (o g : ℕ)
        → length (take (want needle false) (drop (o + size) bytes)) ≡ g
        → 0 < g
        → search_round needle shebangchk false (part o size) (drop (o + size) bytes)
          ≡ look needle (part o (size + g)) (drop (o + (size + g)) bytes)
    unfolding search_round
    round_look o g e some_read =
        let rest = drop (o + size) bytes in
        let got = take (want needle false) rest in
        let more : (length got == 0) ≡ false = ground (arith, e, some_read) in
        let piece : got ≡ take g (drop size (drop o bytes)) =
          take-length (want needle false) rest
          ∙ (ap (λ t. take t rest) e ∙ ap (take g) (drop-drop o size bytes)) in
        let buffer : part o size ++ got ≡ part o (size + g) =
          ap (λ t. part o size ++ t) piece ∙ sym (take-take-drop size g (drop o bytes)) in
        let places : o + (size + g) ≡ o + size + g = omega arith in
        let left : drop (length got) rest ≡ drop (o + (size + g)) bytes =
          ap (λ t. drop t rest) e
          ∙ (sym (drop-drop (o + size) g bytes) ∙ ap (λ t. drop t bytes) (sym places)) in
        rw (more, buffer, left) refl

    -- The search from a place on settles the question.
    abbrev pub Later : ℕ → ℕ → Type 0
    Later fuel o =
        o + size ≤ total
        → Clear (o + 1)
        → total - (o + size) < fuel
        → Settled (search_loop fuel needle shebangchk false (part o size) (drop (o + size) bytes))

    pub settle :
        (fuel o len : ℕ) (first : Bool) (kept rest : Text)
        → Later fuel (o + (len - size))
        → o + len ≤ total
        → size ≤ len
        → total - (o + len) < fuel
        → (r : Round) → Looked o len r
        → search_round needle shebangchk first kept rest ≡ r
        → Settled (search_loop (suc fuel) needle shebangchk first kept rest)
    settle fuel o len first kept rest later le fits enough r (hit c) e =
        inl (loop_over needle shebangchk fuel first kept rest found e, c)
    settle fuel o len first kept rest later le fits enough r (miss clear) e =
        let o' = o + (len - size) in
        let place : o + len ≡ o' + size = omega (arith, fits) in
        let e' = e ∙ ap (λ t. again (part o' size) (drop t bytes)) place in
        subst Settled
          (sym (
            loop_again needle shebangchk fuel first kept rest (part o' size)
              (drop (o' + size) bytes) e'))
          (later (omega (arith, le, fits)) clear (omega (arith, enough, fits)))

    -- The text fits into the buffer with room to spare.
    module _ (short : size < 4096) where
      pub Later-settled : (fuel o : ℕ) → Later fuel o
      Later-settled zero o le clear enough = absurd (omega (arith, enough))
      Later-settled (suc fuel) o le clear enough =
          let rest = drop (o + size) bytes in
          let got = take (want needle false) rest in
          let g = length got in
          let much : g ≡ min (want needle false) (length rest) =
            length-take (want needle false) rest in
          let left : length rest ≡ total - (o + size) = length-drop (o + size) bytes in
          elim (Bool-cases (ltb 0 g)) [
            | inl t ↦
                let some_read : 0 < g = ground (arith, t) in
                let len = size + g in
                let fits : o + len ≤ total = omega (arith, much, left, le) in
                let fits' : size ≤ len = omega arith in
                settle fuel o len false (part o size) rest (Later-settled fuel (o + (len - size)))
                  fits fits' (omega (arith, enough, some_read))
                  (look needle (part o len) (drop (o + len) bytes))
                  (look_lem o len fits fits' (λ i lt. clear i (omega (arith, lt))))
                  (round_look o g refl some_read)
            | inr f ↦
                let none_left : length rest ≡ 0 =
                  let empty : g ≡ 0 = ground (arith, f) in omega (arith, much, empty, short) in
                inr (
                  loop_over needle shebangchk fuel false (part o size) rest absent
                      (round_end (part o size) rest none_left),
                  not_contained (o + 1) clear (omega (arith, left, none_left)),
                )
          ]
