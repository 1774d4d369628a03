-- ===== src/TextSearch/Occurs.antt =====
-- The text that lab3/zad3/main.c looks for, by the places where it stands.
use sys_opy.Common.{
  ℕ, zero, suc, ◌+◌, ◌≤◌, ◌<◌, ◌≡◌, refl, sym, ap, ◌∙◌, true, none, some, List, [], ◌∷◌, ◌++◌,
  length, length-take, length-drop, take, drop, take-append-drop, Bool-cases, inl, inr, arith,
}
use sys_opy.DirWalk.{Text}
use sys_opy.TextSearch.{starts_with, memmem}

-- The text stands somewhere in the bytes.
abbrev pub Contains : Text → Text → Type 0
Contains needle bytes = (a : Text) × (b : Text) × (bytes ≡ a ++ (needle ++ b))

-- It stands at that place.
abbrev pub At : ℕ → Text → Text → Type 0
At i needle bytes = take (length needle) (drop i bytes) ≡ needle

drop-append : (a b : Text) → drop (length a) (a ++ b) ≡ b
drop-append [] b = refl
drop-append (c ∷ a) b = drop-append a b

take-append : (a b : Text) → take (length a) (a ++ b) ≡ a
take-append [] b = refl
take-append (c ∷ a) b = ap (◌∷◌ c) (take-append a b)

pub Contains-At : (needle bytes : Text) → Contains needle bytes → (i : ℕ) × At i needle bytes
Contains-At needle bytes (a, b, e) =
    let tail : drop (length a) bytes ≡ needle ++ b = ap (drop (length a)) e ∙ drop-append a _ in
    (length a, ap (take (length needle)) tail ∙ take-append needle b)

pub At-Contains : (i : ℕ) (needle bytes : Text) → At i needle bytes → Contains needle bytes
At-Contains i needle bytes e =
    let tail = drop i bytes in
    let split : tail ≡ needle ++ drop (length needle) tail =
      sym (take-append-drop (length needle) tail) ∙ ap (λ t. t ++ drop (length needle) tail) e in
    (
      take i bytes,
      drop (length needle) tail,
      sym (take-append-drop i bytes) ∙ ap (λ t. take i bytes ++ t) split,
    )

-- A place leaves room for the text.
pub At-room :
    (i : ℕ) (needle bytes : Text)
    → 0 < length needle
    → At i needle bytes
    → i + length needle ≤ length bytes
At-room i needle bytes pos e =
    omega (arith, ap length e, length-take (length needle) (drop i bytes), length-drop i bytes)

pub starts_with-take :
    (sub text : Text) → starts_with sub text ≡ true → take (length sub) text ≡ sub
unfolding starts_with
starts_with-take [] text h = refl
starts_with-take (c ∷ cs) [] h = cc
starts_with-take (c ∷ cs) (d ∷ ds) h = ground (arith, starts_with-take cs ds)

take-starts_with : (sub text : Text) → take (length sub) text ≡ sub → starts_with sub text ≡ true
unfolding starts_with
take-starts_with [] text e = refl
take-starts_with (c ∷ cs) [] e = cc
take-starts_with (c ∷ cs) (d ∷ ds) e = ground (arith, take-starts_with cs ds)

pub memmem-some :
    (bytes needle ptr : Text) → memmem bytes needle ≡ some ptr → (i : ℕ) × At i needle bytes
unfolding memmem
memmem-some [] needle ptr h = elim (Bool-cases (starts_with needle [])) [
  | inl t ↦ (0, starts_with-take needle [] t)
  | inr f ↦ absurd (ground (arith, h, f))
]
memmem-some (c ∷ cs) needle ptr h = elim (Bool-cases (starts_with needle (c ∷ cs))) [
  | inl t ↦ (0, starts_with-take needle (c ∷ cs) t)
  | inr f ↦ let (i, e) = memmem-some cs needle ptr (ground (arith, h, f)) in (suc i, e)
]

pub memmem-none :
    (bytes needle : Text)
    → memmem bytes needle ≡ none
    → (i : ℕ) → i ≤ length bytes
    → At i needle bytes
    → ⊥
unfolding memmem
memmem-none [] needle h zero le e = ground (arith, h, take-starts_with needle [] e)
memmem-none [] needle h (suc i) le e = absurd (omega (arith, le))
memmem-none (c ∷ cs) needle h zero le e = ground (arith, h, take-starts_with needle (c ∷ cs) e)
memmem-none (c ∷ cs) needle h (suc i) le e =
    memmem-none cs needle (ground (arith, h)) i (omega (arith, le)) e

module _ {ℓ} {A : Type ℓ} where
  pub take-take : (m n : ℕ) (xs : List A) → m ≤ n → take m (take n xs) ≡ take m xs
  take-take zero n xs le = refl
  take-take (suc m) zero xs le = absurd (omega (arith, le))
  take-take (suc m) (suc n) [] le = refl
  take-take (suc m) (suc n) (x ∷ xs) le = ap (◌∷◌ x) (take-take m n xs (omega (arith, le)))

  pub take-drop-take :
      (i m n : ℕ) (xs : List A) → i + m ≤ n → take m (drop i (take n xs)) ≡ take m (drop i xs)
  take-drop-take zero m n xs le = take-take m n xs (omega (arith, le))
  take-drop-take (suc i) m zero xs le = absurd (omega (arith, le))
  take-drop-take (suc i) zero (suc n) [] le = refl
  take-drop-take (suc i) (suc m) (suc n) [] le = refl
  take-drop-take (suc i) m (suc n) (x ∷ xs) le = take-drop-take i m n xs (omega (arith, le))

  -- Two pieces next to each other.
  pub take-take-drop : (m n : ℕ) (xs : List A) → take (m + n) xs ≡ take m xs ++ take n (drop m xs)
  take-take-drop zero n xs = let same : 0 + n ≡ n = omega arith in ap (λ t. take t xs) same
  take-take-drop (suc m) zero [] =
      let same : suc m + 0 ≡ suc m = omega arith in ap (λ t. take t []) same
  take-take-drop (suc m) (suc n) [] =
      let same : suc m + suc n ≡ suc (m + suc n) = omega arith in ap (λ t. take t []) same
  take-take-drop (suc m) n (x ∷ xs) =
      let same : suc m + n ≡ suc (m + n) = omega arith in
      ap (λ t. take t (x ∷ xs)) same ∙ ap (◌∷◌ x) (take-take-drop m n xs)

  pub drop-take_add : (i m : ℕ) (xs : List A) → drop i (take (i + m) xs) ≡ take m (drop i xs)
  drop-take_add zero m xs = let same : 0 + m ≡ m = omega arith in ap (λ t. take t xs) same
  drop-take_add (suc i) zero [] =
      let same : suc i + 0 ≡ suc i = omega arith in ap (λ t. drop (suc i) (take t [])) same
  drop-take_add (suc i) (suc m) [] =
      let same : suc i + suc m ≡ suc (i + suc m) = omega arith in
      ap (λ t. drop (suc i) (take t [])) same
  drop-take_add (suc i) m (x ∷ xs) =
      let same : suc i + m ≡ suc (i + m) = omega arith in
      ap (λ t. drop (suc i) (take t (x ∷ xs))) same ∙ drop-take_add i m xs

  -- Asking for more than there is.
  pub take-length : (n : ℕ) (xs : List A) → take n xs ≡ take (length (take n xs)) xs
  take-length zero xs = refl
  take-length (suc n) [] = refl
  take-length (suc n) (x ∷ xs) = ap (◌∷◌ x) (take-length n xs)
