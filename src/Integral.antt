-- ===== src/Integral.antt =====
-- The pairwise summation of lab3/zad2/main.c, over any addition: `func s` stands for the value of
-- `func` at sample `s`. The files through which the children pass their results are left out, except
-- for their names, which have to fit the 12 characters of `filename`; so is the last division.
-- `int i` and `int r` count children, of which there are far fewer than 2 ^ 31 where the names fit.
pub mod Pairs
pub mod Total
pub mod Strides
pub mod Run
pub mod Tests
use sys_opy.Common.{
  ℕ, zero, suc, ◌+◌, ◌*◌, ◌/◌, ◌%◌, ◌^◌, Bool, true, false, if◌then◌else◌, ltb, leb, ◌==◌, not,
  ◌>>=◌, Option, none, some, List, replicate, length, set, get_or,
}
use sys_opy.Strtol.{decimal}

pub ctz_loop : ℕ → ℕ → ℕ
ctz_loop zero value = 0
ctz_loop (suc fuel) value =
    let rest = ctz_loop fuel (value / 2) in if value % 2 == 0 then suc rest else 0

-- A round for each bit at most.
pub ctz : ℕ → ℕ
unfolding ctz_loop
ctz value = if value == 0 then 32 else ctz_loop 32 value

-- Whether `sprintf(filename, "w%d.bin", r + 1)` stays inside the 12 characters, the 0 included.
pub name_fits : ℕ → Bool
unfolding decimal
name_fits r = leb (length (decimal (r + 1)) + 6) 12

module _ {ℓ} (A : Type ℓ) where
  -- `mask` counts the values, and `accum` has a sum for each of its bits.
  pub record Sums : Type ℓ where
    pub mask : ℕ
    pub accum : List A

module _ {ℓ} {A : Type ℓ} (add : A → A → A) (nil : A) where
  -- The sums of lower bits are added to that of `bin`.
  pub add_lower : ℕ → ℕ → ℕ → List A → List A
  add_lower zero i bin accum = accum
  add_lower (suc rounds) i bin accum =
      add_lower rounds (i + 1) bin (set accum bin (add (get_or accum bin nil) (get_or accum i nil)))

  -- The write beyond the end of `accum` is `none`.
  pub add_value : Sums A → A → Option (Sums A)
  unfolding add_lower ctz
  add_value sums x =
      let mask = (sums.mask + 1) % 2 ^ 32 in
      let bin = ctz mask in
      if not (ltb bin (length sums.accum))
      then none
      else some (record { mask = mask; accum = add_lower bin 0 bin (set sums.accum bin x) })

  -- The loop over the bits of `mask`.
  pub total_loop : ℕ → ℕ → Sums A → A → A
  total_loop zero i sums res = res
  total_loop (suc rounds) i sums res =
      total_loop rounds (i + 1) sums
        (if (sums.mask / 2 ^ i) % 2 == 1 then add res (get_or sums.accum i nil) else res)

  abbrev pub no_sums : Sums A
  no_sums = record { mask = 0; accum = replicate 32 nil }

  module _ (func : ℕ → A) (samples workers : ℕ) where
    -- The samples of a child, from `s` on. A round adds at least 1 to `s`.
    pub child_loop : ℕ → ℕ → Sums A → Option (Sums A)
    unfolding add_value
    child_loop zero s sums = none
    child_loop (suc fuel) s sums = elim (ltb s samples) [
      | true ↦ do next ← add_value sums (func s); child_loop fuel (s + workers) next
      | false ↦ some sums
    ]

    -- A name that does not fit is `none`.
    pub child : ℕ → Option A
    unfolding child_loop total_loop name_fits
    child offset = do
      sums ← child_loop (samples + 1) offset no_sums
      if name_fits offset then some (total_loop 32 0 sums nil) else none

    -- The results of the children from `r` on.
    pub collect : ℕ → ℕ → Sums A → Option (Sums A)
    unfolding child add_value name_fits
    collect zero r sums = some sums
    collect (suc rounds) r sums = do
      res ← child r
      _ ← if name_fits r then some r else none
      next ← add_value sums res
      collect rounds (r + 1) next

    unfoldable pub integrate : Option A
    unfolding collect total_loop
    integrate = do sums ← collect workers 0 no_sums; some (total_loop 32 0 sums nil)
