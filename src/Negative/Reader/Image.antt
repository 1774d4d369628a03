-- ===== src/Negative/Reader/Image.antt =====
-- The reader of lab8/main.c behind the header of a binary image with single bytes.
use sys_opy.Common.{
  ℕ, zero, suc, ◌+◌, ◌-◌, ◌%◌, ◌<◌, ◌≤◌, min, ◌≡◌, refl, ap, ◌∙◌, Bool, true, false, ◌&&◌,
  if◌then◌else◌, ltb, leb, ◌==◌, some, List, [], ◌∷◌, ◌++◌, length, length-append, length-take,
  length-drop, take, drop, take-append-drop, append-nil, append_assoc, Bool-cases, inl, inr, arith,
}
use sys_opy.Negative.Output.{Format}
use sys_opy.Negative.Tokens.{
  Reader, Turn, more, readfinish, then_turn, blanks, comment, limit, is_wide, is_above,
}
use sys_opy.Negative.Reader.{next_value, values, switch, turn, turns, completed, read_loop}

-- A grey or coloured image of single bytes.
abbrev pub binary_format : Bool → ℕ → ℕ → ℕ → Format
binary_format coloured w h m = record {
  binary = true;
  bit = false;
  hasmaxval = true;
  channels = if coloured then 3 else 1;
  width = w;
  height = h;
  maxval = m;
}

unfoldable pub all_at_most : ℕ → List ℕ → Bool
all_at_most m [] = true
all_at_most m (c ∷ cs) = leb c m && all_at_most m cs

abbrev pub reading : Format → List ℕ → Reader
reading f image = record { state = 4; format = f; image = image; incomment = false }

pub all_at_most-take :
    (m k : ℕ) (p : List ℕ) → all_at_most m p ≡ true → all_at_most m (take k p) ≡ true
unfolding all_at_most
all_at_most-take m zero p h = refl
all_at_most-take m (suc k) [] h = refl
all_at_most-take m (suc k) (c ∷ cs) h =
    let later = all_at_most-take m k cs (ground (arith, h)) in ground (arith, h, later)

all_at_most-drop : (m k : ℕ) (p : List ℕ) → all_at_most m p ≡ true → all_at_most m (drop k p) ≡ true
unfolding all_at_most
all_at_most-drop m zero p h = h
all_at_most-drop m (suc k) [] h = refl
all_at_most-drop m (suc k) (c ∷ cs) h = all_at_most-drop m k cs (ground (arith, h))

take_whole : (k : ℕ) (p : List ℕ) → length (take k p) ≡ length p → take k p ≡ p
take_whole zero [] e = refl
take_whole (suc k) [] e = refl
take_whole zero (c ∷ cs) e = absurd (omega (arith, e))
take_whole (suc k) (c ∷ cs) e = ap (◌∷◌ c) (take_whole k cs (omega (arith, e)))

pub drop-length : (k : ℕ) (p : List ℕ) → drop (length (take k p)) p ≡ drop k p
drop-length zero p = refl
drop-length (suc k) [] = refl
drop-length (suc k) (c ∷ cs) = drop-length k cs

pub some_taken : (k n l : ℕ) → 0 < k → 0 < n → l ≡ min k n → (l == 0) ≡ false
some_taken k n l some_room some_left e = ground arith

module _ (coloured : Bool) (w h m : ℕ) (small : m ≤ 255) where
  abbrev pub f : Format
  f = binary_format coloured w h m

  narrow : is_wide m ≡ false
  narrow = ground (arith, small)

  -- The bytes of the buffer are stored.
  stored_all :
      (n : ℕ) (image p : List ℕ)
      → n + length image ≡ limit f
      → length p ≤ n
      → all_at_most m p ≡ true
      → values n (reading f image) p ≡ (
          if length p == n
          then readfinish (reading f (image ++ p))
          else more (reading f (image ++ p)) [])
  unfolding values next_value all_at_most
  stored_all zero image [] e le h = rw (append-nil image) refl
  stored_all zero image (c ∷ cs) e le h = absurd (omega (arith, le))
  stored_all (suc n) image [] e le h =
      let before : ltb (length image) (limit f) ≡ true = ground (arith, e) in
      let left : (0 == suc n) ≡ false = ground arith in
      rw (before, narrow, left, append-nil image) refl
  stored_all (suc n) image (c ∷ cs) e le h =
      let before : ltb (length image) (limit f) ≡ true = ground (arith, e) in
      let fits : is_above m c ≡ false = ground (arith, h) in
      let low : c % 256 ≡ c = let b : c ≤ m = ground (arith, h) in omega (arith, b, small) in
      let later =
        stored_all n (image ++ c ∷ []) cs (omega (arith, e, length-append image (c ∷ [])))
          (omega (arith, le)) (ground (arith, h)) in
      let whole = append_assoc image (c ∷ []) cs in
      let same : (suc (length cs) == suc n) ≡ (length cs == n) = ground arith in
      rw (before, narrow, fits, narrow, low, same, later, whole) refl

  -- A turn in the image.
  image_turn :
      (image p : List ℕ)
      → turn (reading f image) p ≡ values (limit f - length image) (reading f image) p
  unfolding turn then_turn blanks comment switch
  image_turn image p = refl

  abbrev pub Stored : List ℕ → List ℕ → ℕ → Turn
  Stored image p n =
      if length p == n
      then readfinish (reading f (image ++ p))
      else more (reading f (image ++ p)) []

  turns-Stored :
      (n k : ℕ) (image p : List ℕ) → then_turn (Stored image p k) (turns n) ≡ Stored image p k
  unfolding then_turn
  turns-Stored n k image p = elim (Bool-cases (length p == k)) [
    | inl t ↦ rw t refl
    | inr e ↦ rw e refl
  ]

  pub image_turns :
      (fuel : ℕ) (image p : List ℕ) (n : ℕ)
      → n + length image ≡ limit f
      → length p ≤ n
      → all_at_most m p ≡ true
      → turns (suc fuel) (reading f image) p ≡ Stored image p n
  unfolding turns
  image_turns fuel image p n e le h =
      let left : limit f - length image ≡ n = omega (arith, e) in
      let one : turn (reading f image) p ≡ Stored image p n =
        image_turn image p
        ∙ (ap (λ k. values k (reading f image) p) left ∙ stored_all n image p e le h) in
      ap (λ t. then_turn t (turns fuel)) one ∙ turns-Stored fuel n image p

  -- A round of the loop that reads.
  module _ (fuel : ℕ) (r : Reader) (buf file : List ℕ) where
    abbrev chunk : List ℕ
    chunk = take (4096 - length buf) file

    loop_more :
        (r' : Reader) (p : List ℕ)
        → (length chunk == 0) ≡ false
        → turns 5 r (buf ++ chunk) ≡ more r' p
        → read_loop (suc fuel) r buf file ≡ read_loop fuel r' p (drop (length chunk) file)
    unfolding read_loop
    loop_more r' p some_read e = rw (some_read, e, read_loop) refl

    loop_finish :
        (r' : Reader)
        → (length chunk == 0) ≡ false
        → turns 5 r (buf ++ chunk) ≡ readfinish r'
        → read_loop (suc fuel) r buf file ≡ some (completed r')
    unfolding read_loop
    loop_finish r' some_read e = rw (some_read, e, read_loop) refl

  -- What is left of the values is read, with enough fuel.
  abbrev pub Rest : ℕ → Type 0
  Rest fuel =
      (image rest : List ℕ)
      → 0 < length rest
      → length image + length rest ≡ limit f
      → length rest ≤ fuel
      → all_at_most m rest ≡ true
      → read_loop fuel (reading f image) [] rest ≡ some (completed (reading f (image ++ rest)))

  pub continued :
      (fuel : ℕ) (r : Reader) (buf file : List ℕ) (k : ℕ) (image rest : List ℕ)
      → Rest fuel
      → (length (take (4096 - length buf) file) == 0) ≡ false
      → turns 5 r (buf ++ take (4096 - length buf) file) ≡ Stored image (take k rest) (length rest)
      → drop (length (take (4096 - length buf) file)) file ≡ drop k rest
      → length image + length rest ≡ limit f
      → length rest - k ≤ fuel
      → all_at_most m rest ≡ true
      → read_loop (suc fuel) r buf file ≡ some (completed (reading f (image ++ rest)))
  continued fuel r buf file k image rest later some_read e left whole enough h =
      elim (Bool-cases (length (take k rest) == length rest)) [
        | inl t ↦
            let all : take k rest ≡ rest = take_whole k rest (ground (arith, t)) in
            let ends : turns 5 r (buf ++ take (4096 - length buf) file)
                ≡ readfinish (reading f (image ++ rest)) =
              e
              ∙ (ap
                    (λ b.
                      if b
                      then readfinish (reading f (image ++ take k rest))
                      else more (reading f (image ++ take k rest)) [])
                    t
                  ∙ ap (λ q. readfinish (reading f (image ++ q))) all) in
            loop_finish fuel r buf file (reading f (image ++ rest)) some_read ends
        | inr n ↦
            let image' = image ++ take k rest in
            let goes : turns 5 r (buf ++ take (4096 - length buf) file)
                ≡ more (reading f image') [] =
              e
              ∙ ap (λ b. if b then readfinish (reading f image') else more (reading f image') [])
                  n in
            let lengths = length-append image (take k rest) in
            let much = length-take k rest in
            let few = length-drop k rest in
            let differ : length (take k rest) < length rest = ground (arith, n, much) in
            loop_more fuel r buf file (reading f image') [] some_read goes
            ∙ (ap (read_loop fuel (reading f image') []) left
                ∙ (later image' (drop k rest) (omega (arith, differ, much, few))
                      (omega (arith, lengths, much, few, whole)) (omega (arith, few, enough))
                      (all_at_most-drop m k rest h)
                    ∙ ap (λ q. some (completed (reading f q)))
                        (append_assoc image (take k rest) (drop k rest)
                          ∙ ap (λ q. image ++ q) (take-append-drop k rest))))
      ]

  pub Rest-read : (fuel : ℕ) → Rest fuel
  Rest-read zero image rest some_left whole enough h = absurd (omega (arith, some_left, enough))
  Rest-read (suc fuel) image rest some_left whole enough h =
      let much = length-take 4096 rest in
      continued fuel (reading f image) [] rest 4096 image rest (Rest-read fuel)
        (some_taken 4096 (length rest) (length (take 4096 rest)) (omega arith) some_left much)
        (image_turns 4 image (take 4096 rest) (length rest) (omega (arith, whole))
          (omega (arith, much)) (all_at_most-take m 4096 rest h))
        (drop-length 4096 rest) whole (omega (arith, enough)) h
