-- ===== src/DirWalk/Path.antt =====
-- The path of the walk of lab2/zad3/main.c: what was pushed is popped.
use sys_opy.Common.{Bool, true, false, ◌&&◌, not, ◌==◌, ◌≡◌, refl, none, some, List, [], ◌∷◌, arith}
use sys_opy.DirWalk.{Text, ss_push, ss_pop}

unfoldable pub no_slash : Text → Bool
no_slash [] = true
no_slash (c ∷ cs) = not (c == b'/') && no_slash cs

ss_pop-none : (name : Text) → no_slash name ≡ true → ss_pop name ≡ none
unfolding ss_pop no_slash
ss_pop-none [] h = refl
ss_pop-none (c ∷ cs) h =
    let later = ss_pop-none cs (ground (arith, h)) in
    let other : (c == b'/') ≡ false = ground (arith, h) in rw (later, other) refl

-- A name without a slash is taken off again.
pub ss_pop-ss_push :
    (path name : Text) → no_slash name ≡ true → ss_pop (ss_push path name) ≡ some path
unfolding ss_pop ss_push
ss_pop-ss_push [] name h = rw (ss_pop-none name h) refl
ss_pop-ss_push (c ∷ path) name h = rw (ss_pop-ss_push path name h) refl

unfoldable pub all_clean : List Text → Bool
all_clean [] = true
all_clean (name ∷ names) = no_slash name && all_clean names

pub all_clean-cons :
    (name : Text) (names : List Text)
    → all_clean (name ∷ names) ≡ true
    → (no_slash name ≡ true) × (all_clean names ≡ true)
unfolding all_clean
all_clean-cons name names h = (ground (arith, h), ground (arith, h))
