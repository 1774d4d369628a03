-- ===== src/TextSearch/Walks.antt =====
-- The walk of lab3/zad3/main.c and the processes that it starts: which paths they print.
use mathlib.Core.List.{Memᴰ}
use mathlib.Core.List.Memᴰ
use mathlib.Core.Path.{subst}
use sys_opy.Common.{
  ℕ, ◌≡◌, refl, sym, ap, Bool, true, false, ◌&&◌, if◌then◌else◌, Option, List, [], ◌∷◌, ◌++◌,
  Bool-cases, inl, inr, ◌⊎◌, arith,
}
use sys_opy.DirWalk.{Text, Stat, Dir, ss_push, is_dots}
use sys_opy.DirWalk.Path.{no_slash, all_clean, all_clean-cons, ss_pop-ss_push}
use sys_opy.TextSearch.{Seen, failed, passed, Report, silent, joined, seen, walk_entries}

Seen-cases :
    (s : Seen) → (s ≡ failed) ⊎ ((prints : Bool) × (recurse : Bool) × (s ≡ passed prints recurse))
Seen-cases failed = inl refl
Seen-cases (passed prints recurse) = inr (prints, recurse, refl)

module _ (uid gid : ℕ) (needle : Text) (lstat : Text → Option Stat) (contents : Text → Option Text)
    (opendir : Text → Option Dir) where
  abbrev pub at : Text → Seen
  at = seen uid gid needle lstat contents opendir

  module _ (deep : Bool) (below : Text → Report) (curpath : Text) where
    abbrev pub entries : List Text → Bool → Report
    entries = walk_entries uid gid needle lstat contents opendir deep below curpath

    abbrev own : Bool → Text → List Text
    own prints path = if prints then path ∷ [] else []

    abbrev child : Bool → Text → Report
    child recurse path = if recurse && deep then below path else silent true

    entries_dots :
        (name : Text) (names : List Text) (ends : Bool)
        → is_dots name ≡ true
        → entries (name ∷ names) ends ≡ entries names ends
    unfolding walk_entries
    entries_dots name names ends e = rw e refl

    entries-failed :
        (name : Text) (names : List Text) (ends : Bool)
        → is_dots name ≡ false
        → at (ss_push curpath name) ≡ failed
        → entries (name ∷ names) ends ≡ silent false
    unfolding walk_entries
    entries-failed name names ends e f = rw (e, f) refl

    entries_passed :
        (name : Text) (names : List Text) (ends prints recurse : Bool)
        → no_slash name ≡ true
        → is_dots name ≡ false
        → at (ss_push curpath name) ≡ passed prints recurse
        → entries (name ∷ names) ends
          ≡ joined
              (record { printed = own prints (ss_push curpath name); good = true })
              (joined (child recurse (ss_push curpath name)) (entries names ends))
    unfolding walk_entries
    entries_passed name names ends prints recurse s e f =
        rw (e, f, ss_pop-ss_push curpath name s) refl

    -- The path is printed for this name or below it.
    pub data Of (p name : Text) : Type 0 where
      here :
          (recurse : Bool)
          → is_dots name ≡ false
          → at (ss_push curpath name) ≡ passed true recurse
          → p ≡ ss_push curpath name
          → Of p name
      within :
          (prints : Bool)
          → is_dots name ≡ false
          → at (ss_push curpath name) ≡ passed prints true
          → deep ≡ true
          → Memᴰ p (below (ss_push curpath name)).printed
          → Of p name

    below_cases :
        (p name : Text) (prints recurse : Bool) (rest : List Text)
        → is_dots name ≡ false
        → at (ss_push curpath name) ≡ passed prints recurse
        → Memᴰ p ((child recurse (ss_push curpath name)).printed ++ rest)
        → Of p name ⊎ Memᴰ p rest
    unfolding silent
    below_cases p name prints false rest e f m = inr m
    below_cases p name prints true rest e f m =
        let path = ss_push curpath name in
        let at_deep : Bool → Type 0 =
          λ d. Memᴰ p ((if d then below path else silent true).printed ++ rest) in
        elim (Bool-cases deep) [
          | inl t ↦ elim (Memᴰ.append_cases (below path).printed (subst at_deep t m)) [
            | inl m' ↦ inl (within prints e f t m')
            | inr m' ↦ inr m'
          ]
          | inr t ↦ inr (subst at_deep t m)
        ]

    own_cases :
        (p name : Text) (prints recurse : Bool) (rest : List Text)
        → is_dots name ≡ false
        → at (ss_push curpath name) ≡ passed prints recurse
        → Memᴰ p (own prints (ss_push curpath name) ++ rest)
        → Of p name ⊎ Memᴰ p rest
    own_cases p name false recurse rest e f m = inr m
    own_cases p name true recurse rest e f m = elim (Memᴰ.cases_cons m) [
      | inl same ↦ inl (here recurse e f same)
      | inr m' ↦ inr m'
    ]

    Of-named : (p name : Text) → is_dots name ≡ true → Of p name → ⊥
    Of-named p name e (here recurse e' f same) = cc (e, e')
    Of-named p name e (within prints e' f d m) = cc (e, e')

    abbrev pub Somewhere : Text → List Text → Type 0
    Somewhere p names = (name : Text) × Memᴰ name names × Of p name

    later : (p name : Text) (names : List Text) → Somewhere p names → Somewhere p (name ∷ names)
    later p name names (n, m, o) = (n, Memᴰ.tail m, o)

    -- The first name of the loop.
    data Peeled (name : Text) (names : List Text) (ends : Bool) : Type 0 where
      dots :
          is_dots name ≡ true
          → entries (name ∷ names) ends ≡ entries names ends
          → Peeled name names ends
      failing :
          at (ss_push curpath name) ≡ failed
          → entries (name ∷ names) ends ≡ silent false
          → Peeled name names ends
      passing :
          (prints recurse : Bool)
          → is_dots name ≡ false
          → at (ss_push curpath name) ≡ passed prints recurse
          → entries (name ∷ names) ends
            ≡ joined
                (record { printed = own prints (ss_push curpath name); good = true })
                (joined (child recurse (ss_push curpath name)) (entries names ends))
          → Peeled name names ends

    peel :
        (name : Text) (names : List Text) (ends : Bool)
        → no_slash name ≡ true
        → Peeled name names ends
    peel name names ends s = elim (Bool-cases (is_dots name)) [
      | inl e ↦ dots e (entries_dots name names ends e)
      | inr e ↦ elim (Seen-cases (at (ss_push curpath name))) [
        | inl f ↦ failing f (entries-failed name names ends e f)
        | inr (prints, recurse, f) ↦
            passing prints recurse e f (entries_passed name names ends prints recurse s e f)
      ]
    ]

    -- What is printed comes from one of the names.
    pub entries-Somewhere :
        (p : Text) (names : List Text) (ends : Bool)
        → all_clean names ≡ true
        → Memᴰ p (entries names ends).printed
        → Somewhere p names
    unfolding walk_entries silent joined
    entries-Somewhere p [] ends h m = absurd (Memᴰ.not-nil m)
    entries-Somewhere p (name ∷ names) ends h m =
        let (s, h') = all_clean-cons name names h in
        let printed : Report → Type 0 = λ r. Memᴰ p r.printed in
        elim (peel name names ends s) [
          | dots e eq ↦ later p name names (entries-Somewhere p names ends h' (subst printed eq m))
          | failing f eq ↦ absurd (Memᴰ.not-nil (subst printed eq m))
          | passing prints recurse e f eq ↦
              let rest = (entries names ends).printed in
              let path = ss_push curpath name in
              elim (own_cases p name prints recurse ((child recurse path).printed ++ rest) e f
                (subst printed eq m)) [
                  | inl o ↦ (name, Memᴰ.head refl, o)
                  | inr m₁ ↦ elim (below_cases p name prints recurse rest e f m₁) [
                    | inl o ↦ (name, Memᴰ.head refl, o)
                    | inr m₂ ↦ later p name names (entries-Somewhere p names ends h' m₂)
                  ]
                ]
        ]

    own_printed :
        (p name : Text) (prints recurse : Bool) (rest : List Text)
        → at (ss_push curpath name) ≡ passed prints recurse
        → Of p name
        → Memᴰ p (
            own prints (ss_push curpath name)
            ++ ((child recurse (ss_push curpath name)).printed ++ rest))
    own_printed p name prints recurse rest f (here recurse' e f' same) =
        let yes : prints ≡ true = cc (f, f') in
        subst
          (λ b. Memᴰ p (
            own b (ss_push curpath name)
            ++ ((child recurse (ss_push curpath name)).printed ++ rest)))
          (sym yes) (Memᴰ.head same)
    own_printed p name prints recurse rest f (within prints' e f' d m) =
        let path = ss_push curpath name in
        let yes : (recurse && deep) ≡ true =
          let r : recurse ≡ true = cc (f, f') in ground (arith, r, d) in
        Memᴰ.append_right (own prints path) (
          subst (λ b. Memᴰ p ((if b then below path else silent true).printed ++ rest)) (sym yes)
            (Memᴰ.append_left rest m))

    -- Where nothing fails, all of it is printed.
    pub Somewhere-entries :
        (p : Text) (names : List Text) (ends : Bool)
        → all_clean names ≡ true
        → (entries names ends).good ≡ true
        → Somewhere p names
        → Memᴰ p (entries names ends).printed
    unfolding silent joined
    Somewhere-entries p [] ends h g (n, m, o) = absurd (Memᴰ.not-nil m)
    Somewhere-entries p (name ∷ names) ends h g (n, m, o) =
        let (s, h') = all_clean-cons name names h in
        let good : Report → Type 0 = λ r. r.good ≡ true in
        let printed : Report → Type 0 = λ r. Memᴰ p r.printed in
        elim (peel name names ends s) [
          | dots e eq ↦ subst printed (sym eq) (elim (Memᴰ.cases_cons m) [
            | inl same ↦ absurd (Of-named p name e (subst (Of p) same o))
            | inr m' ↦ Somewhere-entries p names ends h' (subst good eq g) (n, m', o)
          ])
          | failing f eq ↦ let no = subst good eq g in cc no
          | passing prints recurse e f eq ↦
              let path = ss_push curpath name in
              let rest = (entries names ends).printed in
              subst printed (sym eq) (elim (Memᴰ.cases_cons m) [
                | inl same ↦ own_printed p name prints recurse rest f (subst (Of p) same o)
                | inr m' ↦
                    let both : (true && ((child recurse path).good && (entries names ends).good))
                        ≡ true =
                      subst good eq g in
                    Memᴰ.append_right (own prints path) (
                      Memᴰ.append_right (child recurse path).printed
                        (Somewhere-entries p names ends h' (ground (arith, both)) (n, m', o)))
              ])
        ]

    -- What a good end says of a name.
    abbrev pub Passes : Text → Type 0
    Passes name =
        (prints : Bool) × (recurse : Bool) × (at (ss_push curpath name) ≡ passed prints recurse)
        × (recurse ≡ true → deep ≡ true → (below (ss_push curpath name)).good ≡ true)

    pub entries-Passes :
        (name : Text) (names : List Text) (ends : Bool)
        → all_clean names ≡ true
        → (entries names ends).good ≡ true
        → Memᴰ name names
        → is_dots name ≡ false
        → Passes name
    unfolding silent joined
    entries-Passes n [] ends h g m e = absurd (Memᴰ.not-nil m)
    entries-Passes n (name ∷ names) ends h g m e =
        let (s, h') = all_clean-cons name names h in
        let good : Report → Type 0 = λ r. r.good ≡ true in
        let again : (entries names ends).good ≡ true → Memᴰ n names → Passes n =
          λ g' m'. entries-Passes n names ends h' g' m' e in
        elim (peel name names ends s) [
          | dots e' eq ↦ elim (Memᴰ.cases_cons m) [
            | inl same ↦ absurd (let e₂ = ap is_dots same in cc (e, e', e₂))
            | inr m' ↦ again (subst good eq g) m'
          ]
          | failing f eq ↦ let no = subst good eq g in cc no
          | passing prints recurse e' f eq ↦
              let path = ss_push curpath name in
              let both : (true && ((child recurse path).good && (entries names ends).good)) ≡ true =
                subst good eq g in
              elim (Memᴰ.cases_cons m) [
                | inl same ↦ subst Passes (sym same) (
                  prints,
                  recurse,
                  f,
                  λ r d.
                      (let child_good : (child recurse path).good ≡ true = ground (arith, both) in
                        let yes : (recurse && deep) ≡ true = ground (arith, r, d) in
                        subst (λ b. (if b then below path else silent true).good ≡ true) yes
                          child_good),
                )
                | inr m' ↦ again (ground (arith, both)) m'
              ]
        ]
