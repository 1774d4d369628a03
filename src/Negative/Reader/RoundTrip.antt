-- ===== src/Negative/Reader/RoundTrip.antt =====
-- The reader of lab8/main.c on what lab8/main.c writes: the header and the values of a binary image.
use sys_opy.Common.{
  ℕ, suc, ◌+◌, ◌-◌, ◌^◌, ◌<◌, ◌≤◌, ◌≡◌, refl, ap, ◌∙◌, Bool, true, false, if◌then◌else◌, ◌==◌, some,
  List, [], ◌∷◌, ◌++◌, length, length-append, length-take, take, append_assoc, arith,
}
use sys_opy.BlankLines.{isspace}
use sys_opy.Strtol.{is_digit, decimal, length-decimal}
use sys_opy.Negative.Output.{Format, image_header}
use sys_opy.Negative.Tokens.{
  Reader, again, then_turn, blanks, comment, magic, kind, behind_token, limit, oversized,
  set_number,
}
use sys_opy.Negative.Reader.{switch, turn, turns, completed, read_image, read_loop, new_reader}
use sys_opy.Negative.Reader.Image.{
  binary_format, all_at_most, reading, Stored, image_turns, continued, Rest-read, drop-length,
  all_at_most-take,
}
use sys_opy.Negative.Reader.Headers.{take-append, drop-append, turns_again, number_turn}

module _ (coloured : Bool) where
  abbrev reader_at : ℕ → ℕ → ℕ → ℕ → Reader
  reader_at state w h m = record {
    state = state;
    format = binary_format coloured w h m;
    image = [];
    incomment = false;
  }

  abbrev letter : ℕ
  letter = if coloured then b'6' else b'5'

module _ (coloured : Bool) (w h m : ℕ) where
  -- The header before some bytes.
  abbrev headed : List ℕ → List ℕ
  headed bytes =
      b'P'
      ∷ (letter coloured
          ∷ (b'\n' ∷ (decimal w ++ b' ' ∷ (decimal h ++ b' ' ∷ (decimal m ++ b'\n' ∷ bytes)))))

  numbers-append :
      (bytes : List ℕ)
      → (decimal w ++ b' ' ∷ (decimal h ++ ((b' ' ∷ decimal m) ++ b'\n' ∷ []))) ++ bytes
        ≡ decimal w ++ b' ' ∷ (decimal h ++ b' ' ∷ (decimal m ++ b'\n' ∷ bytes))
  numbers-append bytes =
      append_assoc (decimal w) (b' ' ∷ (decimal h ++ b' ' ∷ (decimal m ++ b'\n' ∷ []))) bytes
      ∙ ap (λ t. decimal w ++ b' ' ∷ t)
          (append_assoc (decimal h) (b' ' ∷ (decimal m ++ b'\n' ∷ [])) bytes
            ∙ ap (λ t. decimal h ++ b' ' ∷ t) (append_assoc (decimal m) (b'\n' ∷ []) bytes))

image_header-headed :
    (coloured : Bool) (w h m : ℕ) (bytes : List ℕ)
    → image_header decimal (binary_format coloured w h m) ++ bytes ≡ headed coloured w h m bytes
unfolding image_header
image_header-headed true w h m bytes =
    ap (λ t. b'P' ∷ (b'6' ∷ (b'\n' ∷ t))) (numbers-append true w h m bytes)
image_header-headed false w h m bytes =
    ap (λ t. b'P' ∷ (b'5' ∷ (b'\n' ∷ t))) (numbers-append false w h m bytes)

first_turn :
    (coloured : Bool) (p : List ℕ)
    → turn new_reader (b'P' ∷ (letter coloured ∷ (b'\n' ∷ p)))
      ≡ again (reader_at coloured 1 1 1 1) p
unfolding turn then_turn blanks comment switch magic kind behind_token isspace
first_turn true p = refl
first_turn false p = refl

suc_nonzero : (n : ℕ) → (suc n == 0) ≡ false
suc_nonzero n = ground arith

oversized-false :
    (f : Format) → f.width < 2 ^ 31 → f.height < 2 ^ 31 → limit f < 2 ^ 31 → oversized f ≡ false
unfolding limit oversized
oversized-false f wide high fits = ground (arith, wide, high, fits)

module _ (coloured : Bool) (w h m : ℕ) (w_pos : 0 < w) (w_small : w < 2 ^ 31) (h_pos : 0 < h)
    (h_small : h < 2 ^ 31) (m_pos : 0 < m) (m_small : m ≤ 255)
    (fits : limit (binary_format coloured w h m) < 2 ^ 31) where
  abbrev f : Format
  f = binary_format coloured w h m

  width_turn :
      (p : List ℕ)
      → turn (reader_at coloured 1 1 1 1) (decimal w ++ b' ' ∷ p)
        ≡ again (reader_at coloured 2 w 1 1) p
  unfolding behind_token set_number isspace is_digit
  width_turn p = number_turn (reader_at coloured 1 1 1 1) w b' ' p refl refl w_pos w_small refl refl

  height_turn :
      (p : List ℕ)
      → turn (reader_at coloured 2 w 1 1) (decimal h ++ b' ' ∷ p)
        ≡ again (reader_at coloured 3 w h 1) p
  unfolding behind_token set_number isspace is_digit
  height_turn p =
      number_turn (reader_at coloured 2 w 1 1) h b' ' p refl refl h_pos h_small refl refl

  maxval_turn :
      (p : List ℕ)
      → turn (reader_at coloured 3 w h 1) (decimal m ++ b'\n' ∷ p) ≡ again (reading f []) p
  unfolding behind_token set_number isspace is_digit
  maxval_turn p =
      number_turn (reader_at coloured 3 w h 1) m b'\n' p refl refl m_pos (omega (arith, m_small))
        refl (oversized-false f w_small h_small fits)

  header_turns :
      (bytes : List ℕ)
      → turns 5 new_reader (headed coloured w h m bytes) ≡ turns 1 (reading f []) bytes
  header_turns bytes =
      let p₃ = decimal m ++ b'\n' ∷ bytes in
      let p₂ = decimal h ++ b' ' ∷ p₃ in
      let p₁ = decimal w ++ b' ' ∷ p₂ in
      turns_again 4 new_reader (reader_at coloured 1 1 1 1) (headed coloured w h m bytes) p₁
        (first_turn coloured p₁)
      ∙ (turns_again 3 (reader_at coloured 1 1 1 1) (reader_at coloured 2 w 1 1) p₁ p₂
            (width_turn p₂)
          ∙ (turns_again 2 (reader_at coloured 2 w 1 1) (reader_at coloured 3 w h 1) p₂ p₃
                (height_turn p₃)
              ∙ turns_again 1 (reader_at coloured 3 w h 1) (reading f []) p₃ bytes
                  (maxval_turn bytes)))

  abbrev header : List ℕ
  header = image_header decimal f

  header-length : length header ≤ 40
  header-length =
      let whole = ap length (image_header-headed coloured w h m []) in
      omega (
        arith,
        whole,
        length-append header [],
        length-append (decimal w) (b' ' ∷ (decimal h ++ b' ' ∷ (decimal m ++ b'\n' ∷ []))),
        length-append (decimal h) (b' ' ∷ (decimal m ++ b'\n' ∷ [])),
        length-append (decimal m) (b'\n' ∷ []),
        length-decimal w w_small,
        length-decimal h h_small,
        length-decimal m (omega (arith, m_small)),
      )

  abbrev room : ℕ
  room = 4096 - length header

  -- What the first read gets.
  first_read :
      (bytes : List ℕ) → take 4096 (header ++ bytes) ≡ headed coloured w h m (take room bytes)
  first_read bytes =
      take-append 4096 header bytes (omega (arith, header-length))
      ∙ image_header-headed coloured w h m (take room bytes)

  first_turns :
      (bytes : List ℕ)
      → length bytes ≡ limit f
      → all_at_most m bytes ≡ true
      → turns 5 new_reader (take 4096 (header ++ bytes))
        ≡ Stored coloured w h m m_small [] (take room bytes) (length bytes)
  first_turns bytes e all =
      let much = length-take room bytes in
      ap (turns 5 new_reader) (first_read bytes)
      ∙ (header_turns (take room bytes)
          ∙ image_turns coloured w h m m_small 0 [] (take room bytes) (length bytes)
              (omega (arith, e)) (omega (arith, much)) (all_at_most-take m room bytes all))

  read_written :
      (bytes : List ℕ)
      → length bytes ≡ limit f
      → all_at_most m bytes ≡ true
      → (fuel : ℕ) → length (header ++ bytes) ≤ fuel
      → read_loop (suc fuel) new_reader [] (header ++ bytes) ≡ some (completed (reading f bytes))
  read_written bytes e all fuel enough =
      let file = header ++ bytes in
      let much = length-take 4096 file in
      let taken = ap length (first_read bytes) in
      continued coloured w h m m_small fuel new_reader [] file room [] bytes
        (Rest-read coloured w h m m_small fuel) (ap (λ l. l == 0) taken ∙ suc_nonzero _)
        (first_turns bytes e all)
        (drop-length 4096 file ∙ drop-append 4096 header bytes (omega (arith, header-length)))
        (omega (arith, e)) (omega (arith, length-append header bytes, enough)) all

-- For sizes and a maximum of at least 1, a maximum of at most 255 and an image whose size fits into
-- an `int`: a file of the header that the program writes for a binary grey or coloured image and of
-- as many values as the header says, none above the maximum, is read to its end, in however many
-- reads, and yields the format and the values.
pub read_image-image_header :
    (coloured : Bool) (w h m : ℕ) (bytes : List ℕ)
    → 0 < w
    → w < 2 ^ 31
    → 0 < h
    → h < 2 ^ 31
    → 0 < m
    → m ≤ 255
    → limit (binary_format coloured w h m) < 2 ^ 31
    → length bytes ≡ limit (binary_format coloured w h m)
    → all_at_most m bytes ≡ true
    → read_image (image_header decimal (binary_format coloured w h m) ++ bytes)
      ≡ some (completed (reading (binary_format coloured w h m) bytes))
unfolding read_image
read_image-image_header coloured w h m bytes w_pos w_small h_pos h_small m_pos m_small fits e all =
    let file = image_header decimal (binary_format coloured w h m) ++ bytes in
    let enough : length file + 1 ≡ suc (length file) = omega arith in
    ap (λ n. read_loop n new_reader [] file) enough
    ∙ read_written coloured w h m w_pos w_small h_pos h_small m_pos m_small fits bytes e all
        (length file) (omega arith)
