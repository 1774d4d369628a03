-- ===== src/WordCount/Names.antt =====
-- lab1/zad1/libwc.c: the names that a caller of `libwc_stats_to_tmpfile` means by `filepaths`.
use sys_opy.Common.{
  ℕ, ◌≡◌, refl, Bool, true, false, ◌&&◌, if◌then◌else◌, ◌==◌, List, [], ◌∷◌, map, Bool-cases, inl,
  inr,
}
use sys_opy.WordCount.{Text}

-- What stands between the spaces.
unfoldable pub fields : Text → List Text
fields [] = [] ∷ []
fields (c ∷ cs) = elim (fields cs) [
  | [] ↦ []
  | w ∷ ws ↦ if c == b' ' then [] ∷ (w ∷ ws) else (c ∷ w) ∷ ws
]

unfoldable pub nonempty : List Text → List Text
nonempty [] = []
nonempty ([] ∷ ws) = nonempty ws
nonempty ((c ∷ cs) ∷ ws) = (c ∷ cs) ∷ nonempty ws

-- A name that starts with a dash is not to be taken for an option.
unfoldable pub protect : Text → Text
protect [] = []
protect (c ∷ cs) = if c == b'-' then b'.' ∷ b'/' ∷ c ∷ cs else c ∷ cs

-- The names that a caller means.
unfoldable pub names : Text → List Text
unfolding fields nonempty protect
names filepaths = map protect (nonempty (fields filepaths))

-- No name starts with a tilde; the flag says that one starts here.
unfoldable pub NoTilde : Bool → Text → Type 0
NoTilde start [] = Unit
NoTilde start (c ∷ cs) = ((start && (c == b'~')) ≡ false) × NoTilde (c == b' ') cs

pub fields-cons : (t : Text) → (w : Text) × (ws : List Text) × (fields t ≡ w ∷ ws)
unfolding fields
fields-cons [] = ([], [], refl)
fields-cons (c ∷ cs) =
    let (w, ws, e) = fields-cons cs in
    elim (Bool-cases (c == b' ')) [
      | inl sp ↦ ([], w ∷ ws, rw (e, sp))
      | inr other ↦ (c ∷ w, ws, rw (e, other))
    ]

pub fields-space :
    (c : ℕ) (cs w : Text) (ws : List Text)
    → fields cs ≡ w ∷ ws
    → (c == b' ') ≡ true
    → fields (c ∷ cs) ≡ [] ∷ (w ∷ ws)
unfolding fields
fields-space c cs w ws e sp = rw (e, sp) refl

pub fields-other :
    (c : ℕ) (cs w : Text) (ws : List Text)
    → fields cs ≡ w ∷ ws
    → (c == b' ') ≡ false
    → fields (c ∷ cs) ≡ (c ∷ w) ∷ ws
unfolding fields
fields-other c cs w ws e other = rw (e, other) refl
