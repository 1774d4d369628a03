-- ===== src/Mail/Tests.antt =====
-- A message of lab5/zad2/main.c.
use sys_opy.Common.{[], ◌∷◌}
use sys_opy.Mail.{Text}

-- An address with a space and a backslash.
abbrev address : Text
address = b'a' ∷ b' ' ∷ b'\\' ∷ []
