-- ===== src/TextSearch/Files.antt =====
-- The search of lab3/zad3/main.c through a whole file.
use mathlib.Core.Path.{subst}
use sys_opy.Common.{
  ℕ, suc, ◌+◌, ◌-◌, ◌≤◌, ◌<◌, min, ◌≡◌, refl, sym, ap, ◌∙◌, Bool, true, false, ◌&&◌, not, ltb,
  lt→ltb, leb, ◌==◌, some, [], ◌∷◌, length, length-take, length_zero, take, drop, Bool-cases,
  Option-cases, inl, inr, ◌⊎◌, ◌↔◌, arith,
}
use sys_opy.DirWalk.{Text}
use sys_opy.TextSearch.{
  starts_with, memmem, found, absent, aborted, over, shebang, look, search_round, search_loop,
  search_file,
}
use sys_opy.TextSearch.Occurs.{Contains, Contains-At, At-room, memmem-some, take-length}
use sys_opy.TextSearch.Chunks.{loop_over, look_lem, settle, Later-settled, Settled}

-- An executable file that does not start with `#!`.
abbrev pub skipped : Bool → Text → Bool
skipped shebangchk bytes = shebangchk && (leb 2 (length bytes) && not (starts_with shebang bytes))

shebang_seen : (bytes : Text) → starts_with shebang (take 4096 bytes) ≡ starts_with shebang bytes
unfolding starts_with
shebang_seen [] = refl
shebang_seen (a ∷ []) = refl
shebang_seen (a ∷ (b ∷ cs)) = refl

leb-min : (n m k : ℕ) → 2 ≤ n → k ≡ min n m → leb 2 k ≡ leb 2 m
leb-min n m k two e = ground arith

min_some : (n m k : ℕ) → 0 < n → 0 < m → k ≡ min n m → (k == 0) ≡ false
min_some n m k some_read some_left e = ground arith

skipped_seen :
    (shebangchk : Bool) (bytes : Text)
    → skipped shebangchk (take 4096 bytes) ≡ skipped shebangchk bytes
skipped_seen shebangchk bytes =
    let two : leb 2 (length (take 4096 bytes)) ≡ leb 2 (length bytes) =
      leb-min 4096 (length bytes) (length (take 4096 bytes)) (omega arith)
        (length-take 4096 bytes) in
    rw (two, shebang_seen bytes) refl

module _ (needle : Text) (shebangchk : Bool) (bytes : Text) where
  first_empty : length bytes ≡ 0 → search_file needle shebangchk bytes ≡ some absent
  unfolding search_file search_loop search_round
  first_empty e = rw (length_zero bytes e) refl

  first_skipped :
      skipped shebangchk bytes ≡ true → search_round needle shebangchk true [] bytes ≡ over absent
  unfolding search_round
  first_skipped e =
      let s : skipped shebangchk (take 4096 bytes) ≡ true = skipped_seen shebangchk bytes ∙ e in
      ground (arith, s)

  first_look :
      skipped shebangchk bytes ≡ false
      → 0 < length bytes
      → search_round needle shebangchk true [] bytes
        ≡ look needle (take 4096 bytes) (drop (length (take 4096 bytes)) bytes)
  unfolding search_round
  first_look e some_left =
      let s : skipped shebangchk (take 4096 bytes) ≡ false = skipped_seen shebangchk bytes ∙ e in
      let more : (length (take 4096 bytes) == 0) ≡ false =
        min_some 4096 (length bytes) (length (take 4096 bytes)) (omega arith) some_left
          (length-take 4096 bytes) in
      rw (more, s) refl

  opened :
      (n : ℕ)
      → n ≡ length bytes
      → search_file needle shebangchk bytes ≡ search_loop (suc n) needle shebangchk true [] bytes
  unfolding search_file
  opened n e =
      let same : length bytes + 1 ≡ suc n = omega (arith, e) in
      ap (λ t. search_loop t needle shebangchk true [] bytes) same

  skips : skipped shebangchk bytes ≡ true → search_file needle shebangchk bytes ≡ some absent
  skips e =
      let n = length bytes in
      opened n refl ∙ loop_over needle shebangchk n true [] bytes absent (first_skipped e)

  Settled-first :
      (pos : 0 < length needle)
      → length needle < 4096
      → length needle ≤ length bytes
      → skipped shebangchk bytes ≡ false
      → Settled needle bytes pos (search_file needle shebangchk bytes)
  Settled-first pos short fits plain =
      let len = length (take 4096 bytes) in
      let much : len ≡ min 4096 (length bytes) = length-take 4096 bytes in
      let inside : len ≤ length bytes = omega (arith, much) in
      let start : 0 + len ≡ len = omega arith in
      let long : length needle ≤ len = omega (arith, much, short, fits) in
      let n = length bytes in
      let enough : n - len < n = omega (arith, much, pos, fits) in
      let piece : take len bytes ≡ take 4096 bytes = sym (take-length 4096 bytes) in
      let looked =
        look_lem needle bytes pos 0 len (omega (arith, inside)) long
          (λ i lt. absurd (omega (arith, lt))) in
      let round =
        first_look plain (omega (arith, pos, fits))
        ∙ (ap (λ t. look needle t (drop len bytes)) (sym piece)
            ∙ ap (λ k. look needle (take len bytes) (drop k bytes)) (sym start)) in
      subst (Settled needle bytes pos) (sym (opened n refl)) (
        settle needle bytes pos shebangchk n 0 len true [] bytes
          (Later-settled needle bytes pos shebangchk short n (0 + (len - length needle)))
          (omega (arith, inside)) long (omega (arith, enough))
          (look needle (take len bytes) (drop (0 + len) bytes)) looked round)

-- The search goes through the file and the file contains the text.
abbrev pub Finds : Text → Bool → Text → Type 0
Finds needle shebangchk bytes = (skipped shebangchk bytes ≡ false) × Contains needle bytes

-- For a text of 1 to 4095 bytes and a file that is empty or no shorter than the text, the search
-- comes to an end: it finds the text if the file contains it and is not an executable that starts
-- with other bytes than `#!`, and otherwise it reports its absence.
pub search_file_lem :
    (needle : Text) (shebangchk : Bool) (bytes : Text)
    → 0 < length needle
    → length needle < 4096
    → (length bytes ≡ 0) ⊎ (length needle ≤ length bytes)
    → ((search_file needle shebangchk bytes ≡ some found) × Finds needle shebangchk bytes)
      ⊎ ((search_file needle shebangchk bytes ≡ some absent) × (Finds needle shebangchk bytes → ⊥))
search_file_lem needle shebangchk bytes pos short (inl e) = inr (
  first_empty needle shebangchk bytes e,
  λ (s, c).
      (let (i, here) = Contains-At needle bytes c in
        absurd (omega (arith, At-room i needle bytes pos here, e, pos))),
)
search_file_lem needle shebangchk bytes pos short (inr fits) =
    elim (Bool-cases (skipped shebangchk bytes)) [
      | inl t ↦ inr (skips needle shebangchk bytes t, λ (s, c). cc (s, t))
      | inr f ↦ elim (Settled-first needle shebangchk bytes pos short fits f) [
        | inl (e, c) ↦ inl (e, (f, c))
        | inr (e, never) ↦ inr (e, λ (s, c). never c)
      ]
    ]

look_aborts :
    (needle buf rest : Text) → length buf < length needle → look needle buf rest ≡ over aborted
unfolding look
look_aborts needle buf rest short = elim (Option-cases (memmem buf needle)) [
  | inl e ↦ rw (e, lt→ltb (length buf) (length needle) short, look) refl
  | inr (ptr, e) ↦
      let (i, here) = memmem-some buf needle ptr e in
      absurd (omega (arith, At-room i needle buf (omega (arith, short)) here, short))
]

-- A file that is searched and is not empty but shorter than the text makes the search abort.
pub search_file-aborts :
    (needle : Text) (shebangchk : Bool) (bytes : Text)
    → 0 < length bytes
    → length bytes < length needle
    → skipped shebangchk bytes ≡ false
    → search_file needle shebangchk bytes ≡ some aborted
search_file-aborts needle shebangchk bytes some_left short plain =
    let n = length bytes in
    let got = take 4096 bytes in
    opened needle shebangchk bytes n refl
    ∙ loop_over needle shebangchk n true [] bytes aborted (
        first_look needle shebangchk bytes plain some_left
        ∙ look_aborts needle got (drop (length got) bytes)
            (omega (arith, length-take 4096 bytes, short)))

-- The answer is that the text was found just where the file has it.
pub search_file-Finds :
    (needle : Text) (shebangchk : Bool) (bytes : Text)
    → 0 < length needle
    → length needle < 4096
    → (search_file needle shebangchk bytes ≡ some found) ↔ Finds needle shebangchk bytes
search_file-Finds needle shebangchk bytes pos short = (
  λ e. elim (Bool-cases (leb (length needle) (length bytes))) [
    | inl t ↦
        let fits : length needle ≤ length bytes = ground (arith, t) in
        elim (search_file_lem needle shebangchk bytes pos short (inr fits)) [
          | inl (e', f) ↦ f
          | inr (e', f) ↦ cc (e, e')
        ]
    | inr f ↦
        let small : length bytes < length needle = ground (arith, f) in
        elim (Bool-cases (skipped shebangchk bytes)) [
          | inl s ↦ let e' = skips needle shebangchk bytes s in cc (e, e')
          | inr s ↦ elim (Bool-cases (ltb 0 (length bytes))) [
            | inl l ↦
                let e' = search_file-aborts needle shebangchk bytes (ground (arith, l)) small s in
                cc (e, e')
            | inr z ↦ let e' = first_empty needle shebangchk bytes (ground (arith, z)) in cc (e, e')
          ]
        ]
  ],
  λ (s, c).
      (let (i, here) = Contains-At needle bytes c in
        let fits : length needle ≤ length bytes = omega (arith, At-room i needle bytes pos here) in
        elim (search_file_lem needle shebangchk bytes pos short (inr fits)) [
          | inl (e, f) ↦ e
          | inr (e, f) ↦ absurd (f (s, c))
        ]),
)
