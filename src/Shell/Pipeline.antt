-- ===== src/Shell/Pipeline.antt =====
-- The pipelines that lab5/zad1/main.c starts (`parser_sm`, the expression at a newline). The calls of
-- `pipe`, `fork`, `dup2`, `close` and `wait` are taken to succeed, as the process ends otherwise.
pub mod Chain
use sys_opy.Common.{
  ℕ, ◌+◌, Bool, true, false, ◌&&◌, if◌then◌else◌, ◌==◌, Option, none, some, List, [], ◌∷◌, ◌++◌,
  length, drop,
}

-- A child process: its command and the pipes on its input and its output, by their number; `none` is
-- what the interpreter itself has there.
pub record Child {ℓ} (A : Type ℓ) : Type ℓ where
  pub command : A
  pub input : Option ℕ
  pub output : Option ℕ

module _ {ℓ} {A : Type ℓ} where
  -- The inner loop from `j` on, over the elements of the definition from there on: `first_def` says
  -- `i == 0` and `last_def` that `i` is the last. The number is that of the pipes made so far, the
  -- last of which `pipefd` holds.
  pub run_commands : Bool → Bool → ℕ → ℕ → List A → List (Child A) × ℕ
  run_commands first_def last_def pipes j [] = ([], pipes)
  run_commands first_def last_def pipes j (c ∷ cs) =
      let first = (j == 1) && first_def in
      let last = (length cs == 0) && last_def in
      let made = if last then pipes else pipes + 1 in
      let (rest, total) = run_commands first_def last_def made (j + 1) cs in
      (
        record {
          command = c;
          input = if first then none else some pipes;
          output = if last then none else some made;
        }
            ∷ rest,
        total,
      )

  -- The outer loop, over the definitions' elements; element 0 is the name, so that `j` starts at 1.
  pub run_definitions : Bool → ℕ → List (List A) → List (Child A)
  unfolding run_commands
  run_definitions first_def pipes [] = []
  run_definitions first_def pipes (elem ∷ elems) =
      let (children, total) = run_commands first_def (length elems == 0) pipes 1 (drop 1 elem) in
      children ++ run_definitions false total elems

  unfoldable pub run_pipeline : List (List A) → List (Child A)
  unfolding run_definitions
  run_pipeline elems = run_definitions true 0 elems
