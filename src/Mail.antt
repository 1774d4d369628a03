-- ===== src/Mail.antt =====
-- The command line and the message of lab5/zad2/main.c, and what its arguments ask for. The calls of
-- `popen` are left out.
pub mod Compose
pub mod Tests
use sys_opy.Common.{ℕ, ◌+◌, ◌*◌, Bool, if◌then◌else◌, str_eq, List, [], ◌∷◌, ◌++◌, length}

abbrev pub Text : Type 0
Text = List ℕ

-- The size of `cmdline`.
pub buffer_size : Text → ℕ
buffer_size to = length to * 2 + 8

-- A backslash before every character.
pub quoted : Text → Text
quoted [] = []
quoted (c ∷ cs) = b'\\' ∷ c ∷ quoted cs

pub mail_command : Text → Text
unfolding quoted
mail_command to = b'm' ∷ b'a' ∷ b'i' ∷ b'l' ∷ b' ' ∷ quoted to

-- What is written to the command.
pub mail_text : Text → Text → Text
mail_text subject contents = b'\n' ∷ (subject ++ b'\n' ∷ (contents ++ b'\n' ∷ []))

-- What `main` calls: `mail_headers`, `mail_compose` with the command line and the message, or
-- `usage_and_exit`.
pub data Request : Type 0 where
  headers : ℕ → Request
  compose : Text → Text → Request
  usage : Request

-- The arguments without the name of the program.
unfoldable pub main : List Text → Request
unfolding mail_command mail_text
main [] = usage
main (kind ∷ []) =
    if str_eq kind (b'd' ∷ b'a' ∷ b't' ∷ b'e' ∷ [])
    then headers 0
    else if str_eq kind (b'a' ∷ b'u' ∷ b't' ∷ b'h' ∷ b'o' ∷ b'r' ∷ [])
    then headers 1
    else usage
main (to ∷ subject ∷ []) = usage
main (to ∷ subject ∷ contents ∷ []) = compose (mail_command to) (mail_text subject contents)
main (a ∷ b ∷ c ∷ d ∷ rest) = usage
