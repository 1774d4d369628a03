-- ===== src/Collector/Producer.antt =====
-- lab5/zad3/producer.c: the packets that a producer writes to the pipe, and what the consumer makes of
-- one. `decimal` is the text that `sprintf` makes of a number; waiting and locking are left out.
use sys_opy.Common.{
  ℕ, suc, ◌-◌, ◌≤◌, ◌≢◌, if◌then◌else◌, ◌==◌, Bool, Option, none, some, List, [], ◌∷◌, ◌++◌, length,
  replicate,
}
use sys_opy.Collector.{ends_line}

-- "% 10ld:", a blank for the sign of the number and its digits, right in ten columns.
pub packet_head : (ℕ → List ℕ) → ℕ → List ℕ
packet_head decimal lineno =
    let number = b' ' ∷ decimal lineno in
    replicate (10 - length number) b' ' ++ (number ++ b':' ∷ [])

-- The bytes of one read, with a newline at the end.
pub with_newline : List ℕ → List ℕ
with_newline text = if ends_line text then text else text ++ b'\n' ∷ []

-- The loop over the reads; one of nothing ends it.
pub send_reads : List ℕ → List (List ℕ) → List (List ℕ)
unfolding with_newline
send_reads head [] = []
send_reads head ([] ∷ reads) = []
send_reads head ((c ∷ cs) ∷ reads) = (head ++ with_newline (c ∷ cs)) ∷ send_reads head reads

-- `none` is the failed assertion on the length of the head.
pub produce : (ℕ → List ℕ) → ℕ → List (List ℕ) → Option (List (List ℕ))
unfolding packet_head send_reads
produce decimal lineno reads =
    let head = packet_head decimal lineno in
    if length head == 11 then some (send_reads head reads) else none

-- What a read gives of one line: all of it or a part, or the rest with its newline.
abbrev pub read_of : Bool → List ℕ → List ℕ
read_of ended line = if ended then line ++ b'\n' ∷ [] else line

-- No byte of the text is `c`.
abbrev pub Without : ℕ → List ℕ → Type 0
Without c [] = 0 ≤ 0
Without c (x ∷ xs) = (x ≢ c) × Without c xs

module _ (decimal : ℕ → List ℕ) (n : ℕ) where
  -- The blanks and the number.
  abbrev label : List ℕ
  label = replicate (10 - suc (length (decimal n))) b' ' ++ (b' ' ∷ decimal n)
