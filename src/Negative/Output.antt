-- ===== src/Negative/Output.antt =====
-- The output file of lab8/main.c: its header, and the values as text. `decimal` is the text that
-- `sprintf` makes of an `int`.
use sys_opy.Common.{
  ℕ, zero, suc, ◌+◌, ◌*◌, Bool, true, false, ◌||◌, not, if◌then◌else◌, ltb, leb, ◌==◌, List, [],
  ◌∷◌, ◌++◌, length,
}
use sys_opy.Negative.{Bytes}

-- The format of the image read.
pub record Format : Type 0 where
  pub binary : Bool
  pub bit : Bool
  pub hasmaxval : Bool
  pub channels : ℕ
  pub width : ℕ
  pub height : ℕ
  pub maxval : ℕ

-- A bitmap of single bits is written with a byte for each.
abbrev pub written_as : Format → Format
written_as f = if f.bit then record f { binary = true; bit = false; hasmaxval = true } else f

unfoldable pub image_header : (ℕ → List ℕ) → Format → List ℕ
image_header decimal f₀ =
    let f = written_as f₀ in
    let base = if f.bit || f.binary then 3 else 0 in
    let kind = if not f.hasmaxval then b'1' else if f.channels == 1 then b'2' else b'3' in
    let max_text = if f.hasmaxval then b' ' ∷ decimal f.maxval else [] in
    b'P'
    ∷ (base + kind)
    ∷ b'\n'
    ∷ (decimal f.width ++ b' ' ∷ (decimal f.height ++ (max_text ++ b'\n' ∷ [])))

-- The loop over the values, from `i` on, with the rounds left and the column. The buffer that the
-- source fills and writes in parts is left out: what it held is what is written.
pub plain_loop : (ℕ → List ℕ) → ℕ → Bytes → ℕ → ℕ → ℕ → ℕ → List ℕ
plain_loop decimal maxval out imagewritten zero i column = []
plain_loop decimal maxval out imagewritten (suc n) i column =
    let val = if leb maxval 255 then out i else out i * 256 + out (i + 1) in
    let next = if leb maxval 255 then i + 1 else i + 2 in
    let nl = ltb 160 column || (next == imagewritten) in
    let text = decimal val ++ (if nl then b'\n' else b' ') ∷ [] in
    let rest =
      plain_loop decimal maxval out imagewritten n next (if nl then 0 else column + length text) in
    if leb imagewritten i then [] else text ++ rest
