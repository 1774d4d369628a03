-- ===== src/Common/Words.antt =====
-- How a shell (XCU 2.2, 2.3 of POSIX) reads a command line without quotes, expansions and operators
-- into words. A character that would mean anything else than itself makes the reading `none`.
use Prim.Native.Nat.{ℕ}
use mathlib.Core.Path.{◌≡◌, refl}
use mathlib.Core.Logic.{◌≢◌}
use mathlib.Core.Bool.{Bool, true, false, ◌&&◌, ◌||◌, not}
use mathlib.Core.List.{List, [], ◌∷◌}
use mathlib.Core.Option.{Option, none, some}
use native.Mathlib.Omega.{arith}
use sys_opy.Common.Tests.{if◌then◌else◌, ◌==◌, ltb, leb}

-- Characters that a shell does not take for themselves where no backslash precedes: control
-- characters, blank and ! " # $, then & ' ( ) *, then ; < = > ?, then [ and the backslash, the
-- backquote, and { | }.
unfoldable pub is_special : ℕ → Bool
is_special c =
    ltb c 37
    || ((leb 38 c && leb c 42)
        || ((leb 59 c && leb c 63)
            || ((leb 91 c && leb c 92) || ((c == 96) || (leb 123 c && leb c 125)))))

-- A character in front of the first of some words.
unfoldable pub prepend : ℕ → Option (List (List ℕ)) → Option (List (List ℕ))
prepend c none = none
prepend c (some []) = some ((c ∷ []) ∷ [])
prepend c (some (w ∷ ws)) = some ((c ∷ w) ∷ ws)

-- An empty word in front of some, if a word ends here.
unfoldable pub end_word : Bool → Option (List (List ℕ)) → Option (List (List ℕ))
end_word inside none = none
end_word inside (some ws) = some (if inside then [] ∷ ws else ws)

-- The words of a line; with the flag, the first of them goes on from what stands before. A backslash
-- stands for the character behind it, and is dropped together with a newline; words end at blanks. A
-- tilde at the start of a word would be expanded.
unfoldable pub words_from : Bool → List ℕ → Option (List (List ℕ))
unfolding is_special prepend end_word
words_from inside [] = end_word inside (some [])
words_from inside (c ∷ []) =
    if c == b' '
    then end_word inside (some [])
    else if is_special c || (not inside && (c == b'~'))
    then none
    else prepend c (some ([] ∷ []))
words_from inside (c ∷ (d ∷ ds)) =
    let joined = words_from inside ds in
    let quoted = words_from true ds in
    let later = words_from (not (c == b' ')) (d ∷ ds) in
    if c == b'\\'
    then (if d == b'\n' then joined else prepend d quoted)
    else if c == b' '
    then end_word inside later
    else if is_special c || (not inside && (c == b'~'))
    then none
    else prepend c later

unfoldable pub shell_words : List ℕ → Option (List (List ℕ))
unfolding words_from
shell_words = words_from false

-- No character of the text is a newline.
unfoldable pub NoNewline : List ℕ → Type 0
NoNewline [] = Unit
NoNewline (c ∷ cs) = (c ≢ b'\n') × NoNewline cs

pub words_from-plain :
    (inside : Bool) (c : ℕ) (r : List ℕ)
    → is_special c ≡ false
    → (not inside && (c == b'~')) ≡ false
    → words_from inside (c ∷ r) ≡ prepend c (words_from true r)
unfolding words_from is_special
words_from-plain inside c [] h k = ground arith
words_from-plain inside c (d ∷ ds) h k = ground arith

pub words_from-space :
    (inside : Bool) (r : List ℕ)
    → words_from inside (b' ' ∷ r) ≡ end_word inside (words_from false r)
unfolding words_from
words_from-space inside [] = refl
words_from-space inside (d ∷ ds) = refl

pub words_from-quoted :
    (inside : Bool) (d : ℕ) (r : List ℕ)
    → d ≢ b'\n'
    → words_from inside (b'\\' ∷ (d ∷ r)) ≡ prepend d (words_from true r)
unfolding words_from
words_from-quoted inside d r h = ground arith
