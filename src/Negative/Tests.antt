-- ===== src/Negative/Tests.antt =====
-- Images and times for lab8/main.c.
use sys_opy.Common.{
  some, true, false, ◌++◌, zero, suc, ◌+◌, ◌*◌, ◌≡◌, refl, arith, [], ◌∷◌, inl, inr,
}
use sys_opy.Negative.{Bytes, run_numbers, run_blocks}
use sys_opy.Negative.Partition.{Covers}
use sys_opy.Negative.Numbers.{run_numbers_lem}
use sys_opy.Negative.Blocks.{run_blocks_lem}
use sys_opy.Strtol.{decimal}
use sys_opy.Negative.Output.{image_header}
use sys_opy.Negative.Tokens.{limit}
use sys_opy.Negative.Reader.{Reading, completed, read_image}
use sys_opy.Negative.Reader.Image.{binary_format, all_at_most, reading}
use sys_opy.Negative.Reader.RoundTrip.{read_image-image_header}
use sys_opy.Negative.Reader.Total.{read_image_total}

-- Every byte is 30.
abbrev grey : Bytes
grey p = 30

abbrev black : Bytes
black p = 0

both : Covers 2 (1 ∷ 0 ∷ [])
both zero h = inr (inl refl)
both (suc zero) h = inl refl
both (suc (suc k)) h = absurd (omega arith)

run_numbers_lem_example : run_numbers 2 6 100 grey (1 ∷ 0 ∷ []) black 5 ≡ 70
run_numbers_lem_example =
    run_numbers_lem 2 6 100 grey black (1 ∷ 0 ∷ []) (omega arith) (omega arith) both 5 (omega arith)
      (omega arith)

run_blocks_lem_example : run_blocks 2 3 (3 * 2) 100 grey (1 ∷ 0 ∷ []) black (1 * 3 + 2) ≡ 70
run_blocks_lem_example =
    run_blocks_lem 2 3 2 100 grey black (1 ∷ 0 ∷ []) (omega arith) (omega arith) both 1 2
      (omega arith) (omega arith) (omega arith)

two_values : all_at_most 9 (7 ∷ (9 ∷ [])) ≡ true
unfolding all_at_most
two_values = refl

-- A grey image of two values, written and read.
read_image-image_header_example :
    read_image (image_header decimal (binary_format false 2 1 9) ++ (7 ∷ (9 ∷ [])))
    ≡ some (completed (reading (binary_format false 2 1 9) (7 ∷ (9 ∷ []))))
unfolding limit
read_image-image_header_example =
    read_image-image_header false 2 1 9 (7 ∷ (9 ∷ [])) (omega arith) (omega arith) (omega arith)
      (omega arith) (omega arith) (omega arith) (omega arith) refl two_values

read_image_total_example : (out : Reading) × (read_image (b'P' ∷ []) ≡ some out)
read_image_total_example = read_image_total (b'P' ∷ [])
