-- ===== src/Negative/Reader/Total.antt =====
-- The reader of lab8/main.c comes to an end on every file.
use sys_opy.Common.{
  ℕ, zero, suc, ◌+◌, ◌-◌, ◌<◌, ◌≤◌, ◌≡◌, refl, false, ◌==◌, Option, some, List, [], ◌++◌, length,
  length-take, length-drop, take, drop, Bool-cases, inl, inr, arith,
}
use mathlib.Core.Path.{subst}
use sys_opy.Negative.Tokens.{
  Reader, Turn, more, again, badformat, overflow, readfinish, then_turn, blanks, comment,
}
use sys_opy.Negative.Reader.{
  switch, turn, turns, Reading, completed, refused, premature, too_large, read_image, read_loop,
  new_reader,
}
use sys_opy.Negative.Reader.Ahead.{Same, Ahead, Ends, blanks-Same, comment-Same, switch-Ahead}

Same-then_turn :
    (s : ℕ) (t : Turn) (next : Reader → List ℕ → Turn)
    → Same s t
    → ((r : Reader) (p : List ℕ) → r.state ≡ s → Same s (next r p))
    → Same s (then_turn t next)
unfolding then_turn
Same-then_turn s (more r p) next h k = tt
Same-then_turn s (again r p) next h k = k r p h
Same-then_turn s badformat next h k = tt
Same-then_turn s overflow next h k = tt
Same-then_turn s (readfinish r) next h k = tt

Ahead-then_turn : (s : ℕ) (t : Turn) → Same s t → Ahead s (then_turn t switch)
unfolding then_turn
Ahead-then_turn s (more r p) h = tt
Ahead-then_turn s (again r p) h = subst (λ k. Ahead k (switch r p)) h (switch-Ahead r p)
Ahead-then_turn s badformat h = tt
Ahead-then_turn s overflow h = tt
Ahead-then_turn s (readfinish r) h = tt

turn-Ahead : (r : Reader) (p : List ℕ) → Ahead r.state (turn r p)
unfolding turn
turn-Ahead r p = Ahead-then_turn r.state (then_turn (blanks r p) comment) (
    Same-then_turn r.state (blanks r p) comment (blanks-Same r p)
      (λ r' p' e. subst (λ k. Same k (comment r' p')) e (comment-Same r' p')))

Ends-then_turn :
    (s : ℕ) (t : Turn) (next : Reader → List ℕ → Turn)
    → Ahead s t
    → ((r : Reader) (p : List ℕ) → s < r.state → r.state ≤ 4 → Ends (next r p))
    → Ends (then_turn t next)
unfolding then_turn
Ends-then_turn s (more r p) next h k = tt
Ends-then_turn s (again r p) next (lt, le) k = k r p lt le
Ends-then_turn s badformat next h k = tt
Ends-then_turn s overflow next h k = tt
Ends-then_turn s (readfinish r) next h k = tt

-- Five turns are enough from every state.
turns-Ends : (n : ℕ) (r : Reader) (p : List ℕ) → 0 < n → 5 ≤ n + r.state → Ends (turns n r p)
unfolding turns
turns-Ends zero r p some_left enough = absurd (omega (arith, some_left))
turns-Ends (suc n) r p some_left enough =
    Ends-then_turn r.state (turn r p) (turns n) (turn-Ahead r p) (λ r' p' lt le.
      turns-Ends n r' p' (omega (arith, lt, le, enough)) (omega (arith, lt, enough)))

Read : Option Reading → Type 0
Read o = (out : Reading) × (o ≡ some out)

-- What the loop makes of the turns.
loop_end :
    (fuel : ℕ) (r : Reader) (buf rest : List ℕ) (t : Turn)
    → (length (take (4096 - length buf) rest) == 0) ≡ false
    → turns 5 r (buf ++ take (4096 - length buf) rest) ≡ t
    → Ends t
    → ((r' : Reader) (p : List ℕ)
        → Read (read_loop fuel r' p (drop (length (take (4096 - length buf) rest)) rest)))
    → Read (read_loop (suc fuel) r buf rest)
unfolding read_loop Read
loop_end fuel r buf rest (more r' p) n e h later =
    let (out, f) = later r' p in (out, rw (n, e, read_loop) f)
loop_end fuel r buf rest (again r' p) n e h later = absurd h
loop_end fuel r buf rest badformat n e h later = (refused, rw (n, e, read_loop) refl)
loop_end fuel r buf rest overflow n e h later = (too_large, rw (n, e, read_loop) refl)
loop_end fuel r buf rest (readfinish r') n e h later = (completed r', rw (n, e, read_loop) refl)

read_loop-Read :
    (fuel : ℕ) (r : Reader) (buf rest : List ℕ)
    → length rest < fuel
    → Read (read_loop fuel r buf rest)
unfolding read_loop Read
read_loop-Read zero r buf rest lt = absurd (omega (arith, lt))
read_loop-Read (suc fuel) r buf rest lt =
    let chunk = take (4096 - length buf) rest in
    elim (Bool-cases (length chunk == 0)) [
      | inl t ↦ (premature, rw (t, read_loop) refl)
      | inr n ↦
          let some_read : 0 < length chunk = ground (arith, n) in
          let less = length-drop (length chunk) rest in
          let much = length-take (4096 - length buf) rest in
          loop_end fuel r buf rest (turns 5 r (buf ++ chunk)) n refl
            (turns-Ends 5 r (buf ++ chunk) (omega arith) (omega arith))
            (λ r' p.
              read_loop-Read fuel r' p (drop (length chunk) rest)
                (omega (arith, less, much, some_read, lt)))
    ]

-- The reader comes to an end on every file, with numbers of any size: the rounds allowed are enough. A
-- size of the image that overflows an `int`, which C leaves undefined, counts as an end.
pub read_image_total : (file : List ℕ) → (out : Reading) × (read_image file ≡ some out)
unfolding read_image Read
read_image_total file = read_loop-Read (length file + 1) new_reader [] file (omega arith)
