-- ===== src/WordCount/Commands.antt =====
-- lab1/zad2/main.c: the commands over `libwc` that a command line names. `systems` is the status that
-- `system` answers for a command, after so many loads of results, `envs` what the system answers at
-- each load, `atoi` the C library's; what is printed is left out.
use sys_opy.Common.{
  ℕ, zero, suc, ◌+◌, ◌*◌, ◌≤◌, ◌≡◌, ◌≢◌, refl, sym, ap, ◌∙◌, arith, Bool, true, false, not,
  if◌then◌else◌, leb, ◌>>=◌, str_eq, Option, none, some, List, [], ◌∷◌, drop, length, length-drop,
  inl, inr, Bool-cases, Option-cases,
}
use sys_opy.Common.Int.{ℤ, pos, negsuc}
use sys_opy.WordCount.{
  Text, Context, Env, default_tmpfile, libwc_create, libwc_load_result, libwc_del_result,
  libwc_stats_to_tmpfile,
}

-- The static variables, with the number of results loaded.
pub record MainState : Type 0 where
  pub wc_ctx : Context
  pub timer_name : Option Text
  pub loads : ℕ

-- How the loop ends: the exit status and the state, the end of the process elsewhere, or not.
pub data Finish : Type 0 where
  exits : ℕ → MainState → Finish
  stopped : Finish
  unfinished : Finish

abbrev is_ended : Finish → Bool
is_ended unfinished = false
is_ended _ = true

module _ (systems : ℕ → Text → ℤ) (envs : ℕ → Env) (atoi : Text → ℤ) where
  -- A command at the arguments behind its name: how many it takes and the state, `none` a failed
  -- assertion or `exit`.
  abbrev pub Command : Type 0
  Command = List Text → MainState → Option (ℕ × MainState)

  pub com_header : Command
  com_header args st = some (0, st)

  pub com_timer : Command
  com_timer [] st = none
  com_timer (name ∷ args) st = some (1, record st { timer_name = some name })

  pub com_endtimer : Command
  com_endtimer args st = do name ← st.timer_name; some (0, st)

  pub com_count : Command
  com_count [] st = none
  com_count (files ∷ args) st =
      if not (libwc_stats_to_tmpfile (systems st.loads) st.wc_ctx files) then none else do
        (res, ctx) ← libwc_load_result (envs st.loads) st.wc_ctx
        elim res [
          | negsuc n ↦ none
          | pos n ↦ some (1, record st { wc_ctx = ctx; loads = st.loads + 1 })
        ]

  pub com_del : Command
  com_del [] st = none
  com_del (idx ∷ args) st =
      let (res, ctx) = libwc_del_result st.wc_ctx (atoi idx) in
      if res then some (1, record st { wc_ctx = ctx }) else none

  -- The table `commands`, at an index below 5.
  abbrev pub command_name : ℕ → Text
  command_name zero = b'h' ∷ b'e' ∷ b'a' ∷ b'd' ∷ b'e' ∷ b'r' ∷ []
  command_name (suc zero) = b't' ∷ b'i' ∷ b'm' ∷ b'e' ∷ b'r' ∷ []
  command_name (suc (suc zero)) = b'e' ∷ b'n' ∷ b'd' ∷ b't' ∷ b'i' ∷ b'm' ∷ b'e' ∷ b'r' ∷ []
  command_name (suc (suc (suc zero))) = b'c' ∷ b'o' ∷ b'u' ∷ b'n' ∷ b't' ∷ []
  command_name _ = b'd' ∷ b'e' ∷ b'l' ∷ []

  pub command_func : ℕ → Command
  unfolding com_header com_timer com_endtimer com_count com_del
  command_func zero = com_header
  command_func (suc zero) = com_timer
  command_func (suc (suc zero)) = com_endtimer
  command_func (suc (suc (suc zero))) = com_count
  command_func _ = com_del

  -- The loop of `main`, over the arguments left and the index `i` of the table.
  pub command_loop : ℕ → ℕ → List Text → MainState → Finish
  unfolding command_func
  command_loop zero i args st = unfinished
  command_loop (suc fuel) i [] st = exits 0 st
  command_loop (suc fuel) i (arg ∷ args) st = elim (leb 5 i) [
    | true ↦ exits 1 st
    | false ↦ elim (str_eq arg (command_name i)) [
      | true ↦ elim (command_func i args st) [
        | none ↦ stopped
        | some (consumed, st') ↦ command_loop fuel 0 (drop consumed args) st'
      ]
      | false ↦ command_loop fuel (i + 1) (arg ∷ args) st
    ]
  ]

  -- An argument is compared with at most five names, and then passed. The allocation of the context
  -- is taken to succeed.
  pub commands_main : List Text → Finish
  unfolding command_loop
  commands_main args = elim (libwc_create true) [
    | none ↦ stopped
    | some ctx ↦
        command_loop (6 * length args + 6) 0 args
          (record { wc_ctx = ctx; timer_name = none; loads = 0 })
  ]

  -- The loop ends when it has six rounds for each argument left and six more, those for the names
  -- already compared counted.
  command_loop-is_ended :
      (fuel i : ℕ) (args : List Text) (st : MainState)
      → 6 * length args + 6 ≤ fuel + i
      → i ≤ 5
      → is_ended (command_loop fuel i args st) ≡ true
  unfolding command_loop
  command_loop-is_ended zero i args st h p = absurd (omega arith)
  command_loop-is_ended (suc fuel) i [] st h p = refl
  command_loop-is_ended (suc fuel) i (arg ∷ args) st h p = elim (Bool-cases (leb 5 i)) [
    | inl e ↦ rw (e, command_loop) refl
    | inr e ↦ elim (Bool-cases (str_eq arg (command_name i))) [
      | inr e' ↦
          rw (e, e', command_loop)
            (command_loop-is_ended fuel (i + 1) (arg ∷ args) st (omega arith) (ground arith))
      | inl e' ↦ elim (Option-cases (command_func i args st)) [
        | inl o ↦ rw (e, e', o, command_loop) refl
        | inr ((consumed, st'), o) ↦
            rw (e, e', o, command_loop)
              (command_loop-is_ended fuel 0 (drop consumed args) st'
                (omega (arith, length-drop consumed args)) (omega arith))
      ]
    ]
  ]

  -- The program comes to an end for every command line, whatever the shell's commands and the calls of
  -- a load answer.
  pub commands_main_finishes : (args : List Text) → commands_main args ≢ unfinished
  unfolding commands_main libwc_create
  commands_main_finishes args e =
      let st : MainState = record {
        wc_ctx = record { tmpfile = default_tmpfile; len = 0; cap = 0; results = [] };
        timer_name = none;
        loads = 0;
      } in
      let h : true ≡ false =
        sym (command_loop-is_ended (6 * length args + 6) 0 args st (omega arith) (omega arith))
        ∙ ap is_ended e in
      cc
