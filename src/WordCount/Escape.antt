-- ===== src/WordCount/Escape.antt =====
-- lab1/zad1/libwc.c: the command line that `libwc_stats_to_tmpfile` builds, its buffer, and how a
-- shell reads it.
use sys_opy.Common.{
  ℕ, ◌+◌, ◌*◌, ◌≤◌, ◌≡◌, ◌≢◌, refl, sym, ap, ◌∙◌, Bool, true, false, ◌&&◌, not, if◌then◌else◌, ◌==◌,
  some, List, [], ◌∷◌, ◌++◌, map, length, length-append, arith, Bool-cases, inl, inr,
}
use mathlib.Core.Path.{subst}
use sys_opy.Common.Words.{
  is_special, prepend, end_word, words_from, shell_words, NoNewline, words_from-plain,
  words_from-space, words_from-quoted,
}
use sys_opy.WordCount.Names.{
  fields, nonempty, protect, names, NoTilde, fields-cons, fields-space, fields-other,
}
use sys_opy.WordCount.{
  Text, Context, is_arg_safe, escape_tmpfile, escape_paths, stats_command, sysbuf_size,
}

length-escape_tmpfile : (t : Text) → length (escape_tmpfile t) ≤ 2 * length t
unfolding escape_tmpfile
length-escape_tmpfile [] = omega arith
length-escape_tmpfile (c ∷ cs) = ground (arith, length-escape_tmpfile cs)

-- Two bytes for each character are enough, and one more where a name starts.
length-escape_paths :
    (start : Bool) (t : Text)
    → length (escape_paths start t) ≤ 2 * length t + (if start then 1 else 0)
unfolding escape_paths
length-escape_paths start [] = omega arith
length-escape_paths start (c ∷ cs) =
    ground (arith, length-escape_paths true cs, length-escape_paths false cs)

-- The command and its final NUL byte fit the buffer that is allocated for them, whatever the names.
pub stats_command_fits :
    (ctx : Context) (filepaths : Text)
    → length (stats_command ctx filepaths) + 1 ≤ sysbuf_size ctx filepaths
unfolding stats_command sysbuf_size
stats_command_fits ctx filepaths = omega (
  arith,
  length-append (escape_tmpfile ctx.tmpfile) (b' ' ∷ escape_paths true filepaths),
  length-escape_tmpfile ctx.tmpfile,
  length-escape_paths true filepaths,
)

-- The words of a rest of the text: the first field goes on from what stands before, unless the flag
-- says that a name may start here.
words_of : Bool → List Text → List Text
words_of start [] = []
words_of true (w ∷ ws) = map protect (nonempty (w ∷ ws))
words_of false (w ∷ ws) = w ∷ map protect (nonempty ws)

safe-plain : (c : ℕ) → is_arg_safe c ≡ true → is_special c ≡ false
unfolding is_arg_safe is_special
safe-plain c h = ground arith

-- A character that goes out with a backslash where it needs one is read back as itself.
escaped_piece :
    (inside : Bool) (c : ℕ) (r : Text)
    → c ≢ b'\n'
    → (c == b' ') ≡ false
    → (not inside && (c == b'~')) ≡ false
    → words_from inside
        ((if not (is_arg_safe c) && not (c == b' ') then b'\\' ∷ [] else []) ++ c ∷ r)
      ≡ prepend c (words_from true r)
escaped_piece inside c r h k t = elim (Bool-cases (is_arg_safe c)) [
  | inl safe ↦ rw (k, safe) (words_from-plain inside c r (safe-plain c safe) t)
  | inr unsafe ↦ rw (k, unsafe) (words_from-quoted inside c r h)
]

-- The same where "./" goes out first.
dash_piece :
    (r : Text)
    → words_from false (b'.' ∷ (b'/' ∷ (b'-' ∷ r)))
      ≡ prepend b'.' (prepend b'/' (prepend b'-' (words_from true r)))
unfolding is_special
dash_piece r =
    words_from-plain false b'.' (b'/' ∷ (b'-' ∷ r)) refl refl
    ∙ ap (prepend b'.') (
        words_from-plain true b'/' (b'-' ∷ r) refl refl
        ∙ ap (prepend b'/') (words_from-plain true b'-' r refl refl))

escape_paths_dash :
    (cs : Text) → escape_paths true (b'-' ∷ cs) ≡ b'.' ∷ (b'/' ∷ (b'-' ∷ escape_paths false cs))
unfolding escape_paths is_arg_safe
escape_paths_dash cs = refl

escape_paths_space :
    (start : Bool) (cs : Text) → escape_paths start (b' ' ∷ cs) ≡ b' ' ∷ escape_paths true cs
unfolding escape_paths is_arg_safe
escape_paths_space true cs = refl
escape_paths_space false cs = refl

escape_paths_other :
    (start : Bool) (c : ℕ) (cs : Text)
    → (c == b' ') ≡ false
    → (start && (c == b'-')) ≡ false
    → escape_paths start (c ∷ cs)
      ≡ (if not (is_arg_safe c) && not (c == b' ') then b'\\' ∷ [] else [])
        ++ c ∷ escape_paths false cs
unfolding escape_paths
escape_paths_other start c cs k d = rw (d, k) refl

-- The words of a name from its character `c` on, from those of what follows it.
words_of-cons :
    (start : Bool) (c : ℕ) (w : Text) (ws : List Text)
    → (start && (c == b'-')) ≡ false
    → prepend c (some (words_of false (w ∷ ws))) ≡ some (words_of start ((c ∷ w) ∷ ws))
unfolding words_of prepend nonempty protect
words_of-cons true c w ws d = rw d refl
words_of-cons false c w ws d = refl

space_words :
    (start : Bool) (w : Text) (ws : List Text)
    → end_word (not start) (some (words_of true (w ∷ ws))) ≡ some (words_of start ([] ∷ (w ∷ ws)))
unfolding words_of end_word nonempty
space_words true w ws = refl
space_words false w ws = refl

dash_words :
    (w : Text) (ws : List Text)
    → prepend b'.' (prepend b'/' (prepend b'-' (some (words_of false (w ∷ ws)))))
      ≡ some (words_of true ((b'-' ∷ w) ∷ ws))
unfolding words_of prepend nonempty protect
dash_words w ws = refl

module _ (c : ℕ) (cs w : Text) (ws : List Text) (other : (c == b' ') ≡ false) (line : c ≢ b'\n')
    (later : words_from true (escape_paths false cs) ≡ some (words_of false (w ∷ ws))) where
  name_words :
      (start : Bool)
      → (start && (c == b'-')) ≡ false
      → (start && (c == b'~')) ≡ false
      → words_from (not start) (escape_paths start (c ∷ cs)) ≡ some (words_of start ((c ∷ w) ∷ ws))
  name_words start d t =
      let tilde : (not (not start) && (c == b'~')) ≡ false = ground (arith, t) in
      ap (words_from (not start)) (escape_paths_other start c cs other d)
      ∙ escaped_piece (not start) c (escape_paths false cs) line other tilde
      ∙ ap (prepend c) later
      ∙ words_of-cons start c w ws d

dashed_words :
    (cs w : Text) (ws : List Text)
    → words_from true (escape_paths false cs) ≡ some (words_of false (w ∷ ws))
    → words_from false (escape_paths true (b'-' ∷ cs)) ≡ some (words_of true ((b'-' ∷ w) ∷ ws))
dashed_words cs w ws later =
    ap (words_from false) (escape_paths_dash cs)
    ∙ dash_piece (escape_paths false cs)
    ∙ ap (λ t. prepend b'.' (prepend b'/' (prepend b'-' t))) later
    ∙ dash_words w ws

spaced_words :
    (start : Bool) (cs w : Text) (ws : List Text)
    → words_from false (escape_paths true cs) ≡ some (words_of true (w ∷ ws))
    → words_from (not start) (escape_paths start (b' ' ∷ cs))
      ≡ some (words_of start ([] ∷ (w ∷ ws)))
spaced_words start cs w ws later =
    ap (words_from (not start)) (escape_paths_space start cs)
    ∙ words_from-space (not start) (escape_paths true cs)
    ∙ ap (end_word (not start)) later
    ∙ space_words start w ws

name_or_dash :
    (start : Bool) (c : ℕ) (cs w : Text) (ws : List Text)
    → (c == b' ') ≡ false
    → c ≢ b'\n'
    → (start && (c == b'~')) ≡ false
    → words_from true (escape_paths false cs) ≡ some (words_of false (w ∷ ws))
    → words_from (not start) (escape_paths start (c ∷ cs)) ≡ some (words_of start ((c ∷ w) ∷ ws))
name_or_dash false c cs w ws other line t later = name_words c cs w ws other line later false refl t
name_or_dash true c cs w ws other line t later = elim (Bool-cases (c == b'-')) [
  | inl dash ↦
      let same : c ≡ b'-' = ground arith in
      subst
        (λ x. words_from false (escape_paths true (x ∷ cs)) ≡ some (words_of true ((x ∷ w) ∷ ws)))
        (sym same) (dashed_words cs w ws later)
  | inr plain ↦ name_words c cs w ws other line later true (rw plain refl) t
]

words_of-true : (ws : List Text) → words_of true ws ≡ map protect (nonempty ws)
unfolding words_of nonempty
words_of-true [] = refl
words_of-true (w ∷ ws) = refl

nothing_words :
    (start : Bool)
    → words_from (not start) (escape_paths start []) ≡ some (words_of start (fields []))
unfolding escape_paths words_of fields words_from end_word nonempty
nothing_words true = refl
nothing_words false = refl

words_from-escape_paths :
    (start : Bool) (t : Text)
    → NoNewline t
    → NoTilde start t
    → words_from (not start) (escape_paths start t) ≡ some (words_of start (fields t))
unfolding NoNewline NoTilde
words_from-escape_paths start [] h k = nothing_words start
words_from-escape_paths start (c ∷ cs) h k =
    let (w, ws, e) = fields-cons cs in
    elim (Bool-cases (c == b' ')) [
      | inl sp ↦
          let same : c ≡ b' ' = ground arith in
          let rest : NoTilde true cs = subst (λ b. NoTilde b cs) sp k.1 in
          let later : words_from false (escape_paths true cs) ≡ some (words_of true (w ∷ ws)) =
            words_from-escape_paths true cs h.1 rest ∙ ap (λ f. some (words_of true f)) e in
          subst
            (λ x.
              words_from (not start) (escape_paths start (x ∷ cs))
              ≡ some (words_of start ([] ∷ (w ∷ ws))))
            (sym same) (spaced_words start cs w ws later)
          ∙ ap (λ f. some (words_of start f)) (sym (fields-space c cs w ws e sp))
      | inr other ↦
          let rest : NoTilde false cs = subst (λ b. NoTilde b cs) other k.1 in
          let later : words_from true (escape_paths false cs) ≡ some (words_of false (w ∷ ws)) =
            words_from-escape_paths false cs h.1 rest ∙ ap (λ f. some (words_of false f)) e in
          name_or_dash start c cs w ws other h.0 k.0 later
          ∙ ap (λ f. some (words_of start f)) (sym (fields-other c cs w ws e other))
    ]

-- The shell reads the escaped list of files as the names between the spaces of `filepaths`, with
-- "./" in front of those that start with a dash, if there is no newline in them and none of them
-- starts with a tilde. No character keeps a special meaning.
pub shell_words-escape_paths :
    (filepaths : Text)
    → NoNewline filepaths
    → NoTilde true filepaths
    → shell_words (escape_paths true filepaths) ≡ some (names filepaths)
unfolding shell_words names
shell_words-escape_paths filepaths h k =
    words_from-escape_paths true filepaths h k ∙ ap some (words_of-true (fields filepaths))
