-- ===== src/CharCount/Tests.antt =====
-- Arguments and files for lab2/zad2/main.c.
use sys_opy.Common.{ℕ, ◌≡◌, arith, List, [], ◌∷◌}
use sys_opy.Common.Int.{pos}
use sys_opy.CharCount.{count_file, printed, fresh}
use sys_opy.CharCount.Count.{occurrences, lines, matching, joined, printed-count_file}

-- "ab\nb" and "b", as two reads give them.
abbrev chunks : List (List ℕ)
chunks = (b'a' ∷ b'b' ∷ b'\n' ∷ b'b' ∷ []) ∷ (b'b' ∷ []) ∷ []

printed-count_file_example :
    printed (count_file b'b' chunks fresh)
    ≡ (pos (matching b'b' (lines (joined chunks))), pos (occurrences b'b' (joined chunks)))
unfolding occurrences joined
printed-count_file_example = printed-count_file b'b' chunks (omega arith) (omega arith)
