-- ===== src/Shell/Pipeline/Chain.antt =====
-- The children of a pipeline of lab5/zad1/main.c and the pipes between them.
use sys_opy.Common.{
  ℕ, suc, ◌+◌, ◌≤◌, ◌≡◌, refl, ap, ap₂, ◌∙◌, sym, arith, Bool, true, false, ◌&&◌, if◌then◌else◌,
  ◌==◌, none, some, List, [], ◌∷◌, ◌++◌, length, drop, length-append, length-drop, append-nil,
}
use sys_opy.Shell.Pipeline.{Child, run_commands, run_definitions, run_pipeline}

zero_sum : (a b : ℕ) → ((a == 0) && (b == 0)) ≡ (a + b == 0)
zero_sum a b = ground arith

-- The number of the pipe that a child writes is read for another child than the last.
output_same :
    (b : Bool) (n m : ℕ)
    → (if b then none else some (if b then n else m)) ≡ (if b then none else some m)
output_same true n m = refl
output_same false n m = refl

module _ {ℓ} {A : Type ℓ} where
  -- The commands at the places `at` and on, `behind` more to follow: command `k` reads pipe `k` and
  -- writes pipe `k + 1`, apart from the first and the last.
  abbrev pub chain : ℕ → ℕ → List A → List (Child A)
  chain at behind [] = []
  chain at behind (c ∷ cs) =
      record {
        command = c;
        input = if at == 0 then none else some at;
        output = if length cs + behind == 0 then none else some (at + 1);
      }
      ∷ chain (at + 1) behind cs

  -- The commands of the definitions, in order.
  abbrev pub all_commands : List (List A) → List A
  all_commands [] = []
  all_commands (elem ∷ elems) = drop 1 elem ++ all_commands elems

  -- Every definition has a command behind its name.
  abbrev pub HasCommands : List (List A) → Type 0
  HasCommands [] = 0 ≤ 0
  HasCommands (elem ∷ elems) = (2 ≤ length elem) × HasCommands elems

  chain-append :
      (at behind : ℕ) (cs ds : List A)
      → chain at behind (cs ++ ds)
        ≡ chain at (length ds + behind) cs ++ chain (at + length cs) behind ds
  chain-append at behind [] ds = let e : at + 0 ≡ at = omega arith in rw e
  chain-append at behind (c ∷ cs) ds =
      let e : length (cs ++ ds) + behind ≡ length cs + (length ds + behind) =
        omega (arith, length-append cs ds) in
      let e' : at + suc (length cs) ≡ at + 1 + length cs = omega arith in
      rw (chain-append (at + 1) behind cs ds, e, e')

  -- The pipes made after the last command are not looked at.
  run_commands-made :
      (first_def last_def : Bool) (at j : ℕ) (cs : List A)
      → (run_commands first_def last_def
          (if (length cs == 0) && last_def then at else at + 1)
          j
          cs).0
        ≡ (run_commands first_def last_def (at + 1) j cs).0
  unfolding run_commands
  run_commands-made first_def last_def at j [] = refl
  run_commands-made first_def last_def at j (d ∷ ds) =
      let more : (length (d ∷ ds) == 0) ≡ false = ground arith in rw more

  run_commands_lem :
      (first_def : Bool) (behind at j : ℕ) (cs : List A)
      → 1 ≤ j
      → ((j == 1) && first_def) ≡ (at == 0)
      → (run_commands first_def (behind == 0) at j cs).0 ≡ chain at behind cs
  unfolding run_commands
  run_commands_lem first_def behind at j [] p e = refl
  run_commands_lem first_def behind at j (c ∷ cs) p e = rw (
    run_commands-made first_def (behind == 0) at (j + 1) cs,
    run_commands_lem first_def behind (at + 1) (j + 1) cs (omega arith) (ground arith),
    e,
    zero_sum (length cs) behind,
    output_same (length cs + behind == 0) at (at + 1),
  )

  run_commands-total :
      (first_def : Bool) (at j : ℕ) (cs : List A)
      → (run_commands first_def false at j cs).1 ≡ at + length cs
  unfolding run_commands
  run_commands-total first_def at j [] = omega arith
  run_commands-total first_def at j (c ∷ cs) =
      let rest = run_commands-total first_def (at + 1) (j + 1) cs in
      let open_end : ((length cs == 0) && false) ≡ false = ground arith in
      rw (open_end, rest) (omega arith)

  all_commands-length :
      (elem : List A) (elems : List (List A))
      → 2 ≤ length elem
      → 1 ≤ length (all_commands (elem ∷ elems))
  all_commands-length elem elems h =
      omega (arith, length-append (drop 1 elem) (all_commands elems), length-drop 1 elem)

  run_definitions_lem :
      (first_def : Bool) (at : ℕ) (elems : List (List A))
      → HasCommands elems
      → first_def ≡ (at == 0)
      → run_definitions first_def at elems ≡ chain at 0 (all_commands elems)
  unfolding run_definitions
  run_definitions_lem first_def at [] h e = refl
  run_definitions_lem first_def at (elem ∷ []) h e = rw (
    run_commands_lem first_def 0 at 1 (drop 1 elem) (omega arith) e,
    append-nil (chain at 0 (drop 1 elem)),
    append-nil (drop 1 elem),
  )
  run_definitions_lem first_def at (elem ∷ next ∷ elems) h e =
      let cs = drop 1 elem in
      let behind = length (all_commands (next ∷ elems)) in
      let some_behind : (behind == 0) ≡ false =
        ground (arith, all_commands-length next elems h.1.0) in
      let here = run_commands_lem first_def behind at 1 cs (omega arith) e in
      let total = run_commands-total first_def at 1 cs in
      let rest =
        run_definitions_lem false (at + length cs) (next ∷ elems) h.1
          (ground (arith, length-drop 1 elem, h.0)) in
      let last : (length (next ∷ elems) == 0) ≡ false = ground arith in
      let joined = chain-append at 0 cs (all_commands (next ∷ elems)) in
      let bare : behind + 0 ≡ behind = omega arith in
      ap
        (λ b.
          (run_commands first_def b at 1 cs).0
          ++ run_definitions false (run_commands first_def b at 1 cs).1 (next ∷ elems))
        last
      ∙ ap₂ ◌++◌
          (ap (λ b. (run_commands first_def b at 1 cs).0) (sym some_behind)
            ∙ (here ∙ ap (λ n. chain at n cs) (sym bare)))
          (ap (λ t. run_definitions false t (next ∷ elems)) total ∙ rest)
      ∙ sym joined

  -- The children of a pipeline are the commands of its definitions, in order, each reading the pipe
  -- that the one before it writes; the first reads the interpreter's input and the last writes its
  -- output. Every definition named has at least one command.
  pub run_pipeline-chain :
      (elems : List (List A))
      → HasCommands elems
      → run_pipeline elems ≡ chain 0 0 (all_commands elems)
  unfolding run_pipeline
  run_pipeline-chain elems h = run_definitions_lem true 0 elems h refl
