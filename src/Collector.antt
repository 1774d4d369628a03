-- ===== src/Collector.antt =====
-- lab5/zad3/consumer.c: a process that takes numbered packets from a pipe and adds the text of each to
-- the line of its number in a file. Bytes are numbers, the file is the list of its bytes; `atoi` is
-- the C library's. The calls of the system are taken to succeed.
pub mod Place
pub mod Producer
mod Tests
use sys_opy.Common.{
  ℕ, zero, suc, ◌+◌, ◌-◌, Bool, true, false, ◌&&◌, ◌||◌, not, if◌then◌else◌, ltb, leb, ◌==◌, ◌>>=◌,
  Option, none, some, List, [], ◌∷◌, ◌++◌, take, drop, length, replicate,
}
use sys_opy.Common.Int.{ℤ, pos, negsuc}

-- The loop over the file, which counts newlines up to `lineno`: the newlines and the bytes passed.
pub scan_lines : ℕ → ℕ → ℕ → List ℕ → ℕ × ℕ
scan_lines lineno curline i [] = (curline, i)
scan_lines lineno curline i (c ∷ cs) =
    let rest = scan_lines lineno (if c == b'\n' then curline + 1 else curline) (i + 1) cs in
    if ltb curline lineno then rest else (curline, i)

-- A write at an offset of the file.
abbrev pub write_over : List ℕ → ℕ → List ℕ → List ℕ
write_over file at text = take at file ++ (text ++ drop (at + length text) file)

-- The two cases behind the loop; the text ends in a newline. The second writes at the end.
pub place_at : List ℕ → ℕ → List ℕ → ℕ × ℕ → List ℕ
place_at file lineno text (curline, i) =
    if curline == lineno
    then write_over (write_over file (i - 1) text) (i - 1 + length text) (drop (i - 1 + 1) file)
    else file ++ (replicate (lineno - 1 - curline) b'\n' ++ text)

pub place_text : List ℕ → ℕ → List ℕ → List ℕ
unfolding scan_lines place_at
place_text file lineno text = place_at file lineno text (scan_lines lineno 0 0 file)

-- The bytes up to and with the first `c`, and those behind it.
pub split_after : ℕ → List ℕ → Option (List ℕ × List ℕ)
split_after c [] = none
split_after c (x ∷ xs) =
    let rest = split_after c xs in
    if x == c then some (x ∷ [], xs) else do (front, back) ← rest; some (x ∷ front, back)

-- The body behind `read_coalescing_redo_hack`, over the bytes buffered; a round takes one packet,
-- so that their number bounds the rounds. `none` is bad data or a failed assertion.
pub take_packets : ℕ → (List ℕ → ℤ) → List ℕ → List ℕ → Option (List ℕ)
unfolding split_after place_text
take_packets zero atoi buf file = none
take_packets (suc fuel) atoi buf file = do
  (packet, more) ← split_after b'\n' buf
  (number, text) ← split_after b':' packet
  if not (length number == 11) then none else elim (atoi buf) [
    | negsuc n ↦ none
    | pos zero ↦ none
    | pos (suc n) ↦
        let placed = place_text file (suc n) text in
        let rest = take_packets fuel atoi more placed in
        if length more == 0 then some placed else rest
  ]

abbrev pub ends_line : List ℕ → Bool
ends_line [] = false
ends_line (c ∷ []) = c == b'\n'
ends_line (c ∷ d ∷ ds) = ends_line (d ∷ ds)

-- The loop of `main`: each element is what was buffered until a newline ended it or the pipe did.
pub consume : (List ℕ → ℤ) → List (List ℕ) → List ℕ → Option (List ℕ)
unfolding take_packets
consume atoi [] file = some file
consume atoi ([] ∷ reads) file = some file
consume atoi ((c ∷ cs) ∷ reads) file = do
  next ← if ends_line (c ∷ cs) then take_packets (length cs + 1) atoi (c ∷ cs) file else none
  consume atoi reads next
