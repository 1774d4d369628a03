-- ===== src/BlankLines/Tests.antt =====
-- A run of lab2/zad1/main.c.
use sys_opy.Common.{ℕ, ◌≡◌, arith, some, List, [], ◌∷◌}
use sys_opy.BlankLines.{filter_file}
use sys_opy.BlankLines.Lines.{text_lines, lines_of}
use sys_opy.BlankLines.Finish.{filter_file-lines}

-- A line with text that begins in one buffer of four bytes and goes on in the next, a blank line
-- and a line without newline.
abbrev text_file : List ℕ
text_file = 32 ∷ 32 ∷ 32 ∷ 9 ∷ 32 ∷ 97 ∷ 10 ∷ 32 ∷ 10 ∷ 98 ∷ []

filter_file-lines_example : filter_file 4 text_file ≡ some (text_lines (lines_of text_file))
filter_file-lines_example = filter_file-lines 4 text_file (omega arith)
