-- ===== src/DirWalk/Buffer/Growth.antt =====
-- The growing buffer of lab2/zad3/main.c against the path as a text.
use sys_opy.Common.{
  ℕ, zero, suc, ◌+◌, ◌-◌, ◌^◌, ◌<◌, ◌≤◌, ◌≡◌, refl, sym, ap, ◌∙◌, Bool, true, ◌&&◌, not, ltb, leb,
  ◌==◌, some, List, [], ◌∷◌, ◌++◌, append_assoc, replicate, length-replicate, take, drop, length,
  length-append, length-drop, set, Bool-cases, inl, inr, arith,
}
use sys_opy.DirWalk.{Text, ss_push, ss_pop}
use sys_opy.DirWalk.Path.{no_slash, ss_pop-ss_push}
use sys_opy.DirWalk.Buffer.{
  next_size, SizedStr, c_string, put, ss_realloc, ss_ensure, push_name, pop_name,
}
use sys_opy.DirWalk.Buffer.Sizes.{next_size-enough}

unfoldable pub no_zero : Text → Bool
no_zero [] = true
no_zero (c ∷ cs) = not (c == 0) && no_zero cs

-- The buffer holds a text: its length is kept, and there is room for the closing 0.
pub record Holds (ss : SizedStr) (t : Text) : Type 0 where
  pub pad : List ℕ
  pub content : ss.block ≡ some (t ++ 0 ∷ pad)
  pub size : ss.len ≡ length t
  pub room : length t + length pad ≡ ss.cap
  pub clean : no_zero t ≡ true

c_string-content : (t pad : List ℕ) → no_zero t ≡ true → c_string (t ++ 0 ∷ pad) ≡ t
unfolding c_string no_zero
c_string-content [] pad h = refl
c_string-content (zero ∷ cs) pad h = absurd (ground (arith, h))
c_string-content (suc c ∷ cs) pad h = ap (◌∷◌ (suc c)) (c_string-content cs pad (ground (arith, h)))

take-front : (a b : List ℕ) → take (length a) (a ++ b) ≡ a
take-front [] b = refl
take-front (c ∷ a) b = ap (◌∷◌ c) (take-front a b)

drop-front : (a b : List ℕ) (n : ℕ) → drop (length a + n) (a ++ b) ≡ drop n b
drop-front [] b n = let same : 0 + n ≡ n = omega arith in ap (λ k. drop k b) same
drop-front (c ∷ a) b n =
    let same : suc (length a) + n ≡ suc (length a + n) = omega arith in
    ap (λ k. drop k (c ∷ a ++ b)) same ∙ drop-front a b n

-- A text written at the closing 0.
put-content :
    (t pad s : List ℕ) → put (t ++ 0 ∷ pad) (length t) s ≡ (t ++ s) ++ 0 ∷ drop (length s) pad
unfolding put
put-content t pad s =
    let place : length t + length s + 1 ≡ length t + suc (length s) = omega arith in
    let rest : drop (length t + length s + 1) (t ++ 0 ∷ pad) ≡ drop (length s) pad =
      ap (λ k. drop k (t ++ 0 ∷ pad)) place ∙ drop-front t (0 ∷ pad) (suc (length s)) in
    rw (take-front t (0 ∷ pad), rest) (sym (append_assoc t s (0 ∷ drop (length s) pad)))

no_zero-append : (a b : Text) → no_zero a ≡ true → no_zero b ≡ true → no_zero (a ++ b) ≡ true
unfolding no_zero
no_zero-append [] b ha hb = hb
no_zero-append (c ∷ cs) b ha hb =
    let later = no_zero-append cs b (ground (arith, ha)) hb in ground (arith, ha, later)

module _ (alloc : ℕ → Bool) (grants : (n : ℕ) → alloc n ≡ true) where
  realloc-put :
      (ss : SizedStr) (wanted : ℕ) (old : List ℕ)
      → ss.cap < wanted
      → ss.block ≡ some old
      → ss_realloc alloc ss wanted
        ≡ some (record ss {
          cap = wanted;
          block = some (put (replicate (wanted + 1) 0) 0 (c_string old));
        })
  unfolding ss_realloc
  realloc-put ss wanted old lt e =
      let grows : ltb ss.cap wanted ≡ true = ground (arith, lt) in
      rw (grows, grants (wanted + 1), e, ss_realloc) refl

  put_front :
      (wanted : ℕ) (t : Text)
      → put (replicate (wanted + 1) 0) 0 t
        ≡ t ++ 0 ∷ drop (0 + length t + 1) (replicate (wanted + 1) 0)
  unfolding put
  put_front wanted t = refl

  ensure_grown :
      (ss : SizedStr) (n wanted : ℕ) (cells : List ℕ)
      → ltb ss.cap n ≡ true
      → next_size (n - 1) ≡ some wanted
      → leb n wanted ≡ true
      → ss_realloc alloc ss wanted ≡ some (record ss { cap = wanted; block = some cells })
      → ss_ensure alloc ss n true ≡ some (record ss { cap = wanted; block = some cells })
  unfolding ss_ensure
  ensure_grown ss n wanted cells grows e fits r = rw (grows, e, fits, r, ss_ensure) refl

  -- Room is made, and the text stays.
  ensure-Holds :
      (ss : SizedStr) (t : Text) (n : ℕ)
      → Holds ss t
      → 0 < n
      → n < 2 ^ 63
      → (ss' : SizedStr) × (ss_ensure alloc ss n true ≡ some ss') × Holds ss' t × (n ≤ ss'.cap)
  unfolding ss_ensure
  ensure-Holds ss t n h some_len small = elim (Bool-cases (ltb ss.cap n)) [
    | inr enough ↦ (ss, rw enough refl, h, ground (arith, enough))
    | inl grows ↦
        let (wanted, e, le) = next_size-enough n some_len small in
        let lt : ss.cap < n = ground (arith, grows) in
        let fits : leb n wanted ≡ true = ground (arith, le) in
        let r = realloc-put ss wanted (t ++ 0 ∷ h.pad) (omega (arith, lt, le)) h.content in
        let zeros : List ℕ = replicate (wanted + 1) 0 in
        let pad' = drop (0 + length t + 1) zeros in
        let left = length-drop (0 + length t + 1) zeros in
        let much : length zeros ≡ wanted + 1 = length-replicate (wanted + 1) 0 in
        let kept : put (replicate (wanted + 1) 0) 0 (c_string (t ++ 0 ∷ h.pad)) ≡ t ++ 0 ∷ pad' =
          ap (put (replicate (wanted + 1) 0) 0) (c_string-content t h.pad h.clean)
          ∙ put_front wanted t in
        (
          record ss { cap = wanted; block = some (t ++ 0 ∷ pad') },
          ensure_grown ss n wanted (t ++ 0 ∷ pad') grows e fits
              (r ∙ ap (λ b. some (record ss { cap = wanted; block = some b })) kept),
          record {
            pad = pad';
            content = refl;
            size = h.size;
            room = omega (arith, le, lt, h.room, left, much);
            clean = h.clean;
          },
          le,
        )
  ]

  push_grown :
      (ss ss' : SizedStr) (name : Text) (cells : List ℕ)
      → ss_ensure alloc ss (ss.len + length name + 1) true ≡ some ss'
      → ss'.block ≡ some cells
      → push_name alloc ss name
        ≡ some (record ss' {
          len = ss'.len + 1 + length name;
          block = some (put cells ss'.len (b'/' ∷ name));
        })
  unfolding push_name
  push_grown ss ss' name cells e b = rw (e, b, push_name) refl

  push-Holds :
      (ss : SizedStr) (t name : Text)
      → Holds ss t
      → no_zero name ≡ true
      → length t + length name + 1 < 2 ^ 63
      → (ss' : SizedStr) × (push_name alloc ss name ≡ some ss') × Holds ss' (ss_push t name)
  unfolding ss_push no_zero
  push-Holds ss t name h c small =
      let n = ss.len + length name + 1 in
      let (ss', e, h', le) = ensure-Holds ss t n h (omega arith) (omega (arith, small, h.size)) in
      let s = b'/' ∷ name in
      let whole : put (t ++ 0 ∷ h'.pad) ss'.len s ≡ (t ++ s) ++ 0 ∷ drop (length s) h'.pad =
        ap (λ k. put (t ++ 0 ∷ h'.pad) k s) h'.size ∙ put-content t h'.pad s in
      (
        record ss' {
          len = ss'.len + 1 + length name;
          block = some (put (t ++ 0 ∷ h'.pad) ss'.len s);
        },
        push_grown ss ss' name (t ++ 0 ∷ h'.pad) e h'.content,
        record {
          pad = drop (length s) h'.pad;
          content = ap some whole;
          size = omega (arith, h'.size, length-append t s);
          room =
              omega (arith, length-append t s, length-drop (length s) h'.pad, h'.room, h.size, le);
          clean = no_zero-append t s h.clean (ground (arith, c));
        },
      )

set-front : (a b : List ℕ) (c v : ℕ) → set (a ++ c ∷ b) (length a) v ≡ a ++ v ∷ b
set-front [] b c v = refl
set-front (d ∷ a) b c v = ap (◌∷◌ d) (set-front a b c v)

pop_cut :
    (ss : SizedStr) (cells head : List ℕ)
    → ss.block ≡ some cells
    → ss_pop (c_string cells) ≡ some head
    → pop_name ss ≡ some (record ss { len = length head; block = some (set cells (length head) 0) })
unfolding pop_name
pop_cut ss cells head b e = rw (b, e, pop_name) refl

pop-Holds :
    (ss : SizedStr) (t name : Text)
    → Holds ss (ss_push t name)
    → no_zero t ≡ true
    → no_slash name ≡ true
    → (ss' : SizedStr) × (pop_name ss ≡ some ss') × Holds ss' t
unfolding ss_push
pop-Holds ss t name h c slash =
    let s = b'/' ∷ name in
    let cells = (t ++ s) ++ 0 ∷ h.pad in
    let popped : ss_pop (c_string cells) ≡ some t =
      ap ss_pop (c_string-content (t ++ s) h.pad h.clean) ∙ ss_pop-ss_push t name slash in
    let cut : set cells (length t) 0 ≡ t ++ 0 ∷ (name ++ 0 ∷ h.pad) =
      ap (λ xs. set xs (length t) 0) (append_assoc t s (0 ∷ h.pad))
      ∙ set-front t (name ++ 0 ∷ h.pad) b'/' 0 in
    (
      record ss { len = length t; block = some (set cells (length t) 0) },
      pop_cut ss cells t h.content popped,
      record {
        pad = name ++ 0 ∷ h.pad;
        content = ap some cut;
        size = refl;
        room = omega (arith, h.room, length-append t s, length-append name (0 ∷ h.pad));
        clean = c;
      },
    )

-- Where allocations succeed, a buffer that holds a path takes a name without 0 and without a slash,
-- for a path of less than 2 ^ 63 bytes: it then holds the path with the name, and popping makes it
-- hold the first path again.
pub push_name-pop_name :
    (alloc : ℕ → Bool) (ss : SizedStr) (t name : Text)
    → ((n : ℕ) → alloc n ≡ true)
    → Holds ss t
    → no_zero name ≡ true
    → no_slash name ≡ true
    → length t + length name + 1 < 2 ^ 63
    → (ss₁ : SizedStr) × (ss₂ : SizedStr) × (push_name alloc ss name ≡ some ss₁)
      × Holds ss₁ (ss_push t name)
      × (pop_name ss₁ ≡ some ss₂)
      × Holds ss₂ t
push_name-pop_name alloc ss t name grants h c slash small =
    let (ss₁, e, h₁) = push-Holds alloc grants ss t name h c small in
    let (ss₂, e', h₂) = pop-Holds ss₁ t name h₁ h.clean slash in (ss₁, ss₂, e, h₁, e', h₂)
