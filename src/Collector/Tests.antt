-- ===== src/Collector/Tests.antt =====
-- Packets for lab5/zad3/consumer.c.
use sys_opy.Common.{ℕ, ◌≡◌, refl, List, [], ◌∷◌}
use sys_opy.Common.Int.{ℤ, pos}
use sys_opy.Collector.{place_text, scan_lines, place_at}
use sys_opy.Collector.Place.{with_text, place_text-with_text}

-- "a\nb\n"
abbrev two_lines : List ℕ
two_lines = b'a' ∷ b'\n' ∷ b'b' ∷ b'\n' ∷ []

place_text_middle :
    place_text two_lines 1 (b'x' ∷ b'\n' ∷ []) ≡ b'a' ∷ b'x' ∷ b'\n' ∷ b'b' ∷ b'\n' ∷ []
unfolding place_text scan_lines place_at
place_text_middle = refl

place_text-with_text_example :
    place_text two_lines 4 (b'x' ∷ b'\n' ∷ []) ≡ with_text 3 (b'x' ∷ []) two_lines
place_text-with_text_example = place_text-with_text two_lines (b'x' ∷ []) 3

-- A process that writes line 7.
abbrev seven : ℕ → List ℕ
seven n = b'7' ∷ []

abbrev read_seven : List ℕ → ℤ
read_seven text = pos 7
