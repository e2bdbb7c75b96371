-- ===== src/Word/Mask.antt =====
-- Digits of a cleared word, and the masks of low digits.
use nano1g_unicorn_c.Base.{true, ℕ, ◌-◌, ◌%◌, ◌^◌, ◌≤◌, ◌<◌, bit_and, bit_or, min, ◌≡◌, ap, arith}
use nano1g_unicorn_c.Word.Bit.{
  bit, ones, bit-and, bit-or, bit-complement, bit_above, bit-zero, bit-le-one, eq_of_bits,
}
use nano1g_unicorn_c.Word.Shift.{suc-ones, bit-mod}
use nano1g_unicorn_c.Word.Ops.{not32, clear_bits, test_bits}
use native.Mathlib.Nat.{sub-zero}
use native.Mathlib.Decide.{dec_lt}

pub le-ones : (w x : ℕ) → x < 2 ^ w → x ≤ ones w
le-ones w x h = omega (arith, suc-ones w)

pub bit-ones : (w k : ℕ) → k < w → bit (ones w) k ≡ 1
bit-ones w k h =
    omega (
      arith,
      bit-complement w 0 k (omega arith) h,
      bit-zero k,
      ap (λ t. bit t k) (sub-zero (ones w)),
    )

-- x & ~m, digit by digit.
pub bit-clear : (x m k : ℕ) → x < 2 ^ 32 → m < 2 ^ 32 → bit (clear_bits x m) k ≡ bit x k - bit m k
unfolding ones
bit-clear x m k hx hm = elim (dec_lt k 32) [
  | yes h ↦ omega (
    arith,
    bit-and x (not32 m) k,
    bit-complement 32 m k (omega arith) h,
    bit-le-one x k,
    bit-le-one m k,
  )
  | no h ↦ omega (arith, bit-and x (not32 m) k, bit_above 32 x k (omega arith) (omega arith))
]

-- A mask of w low digits is a remainder.
pub bit_and-ones : (w x : ℕ) → bit_and x (ones w) ≡ x % 2 ^ w
bit_and-ones w x = eq_of_bits (bit_and x (ones w)) (x % 2 ^ w) digit
  where
    digit : (k : ℕ) → bit (bit_and x (ones w)) k ≡ bit (x % 2 ^ w) k
    digit k = elim (dec_lt k w) [
      | yes h ↦ omega (arith, bit-and x (ones w) k, bit-ones w k h, bit-mod x w k h, bit-le-one x k)
      | no h ↦ omega (
        arith,
        bit-and x (ones w) k,
        bit_above w (ones w) k (omega arith) (omega arith),
        bit_above w (x % 2 ^ w) k (omega (arith, suc-ones w)) (omega arith),
      )
    ]

pub bit_and-low_two : (x : ℕ) → bit_and x 3 ≡ x % 4
unfolding ones
bit_and-low_two x = bit_and-ones 2 x

-- What was cleared tests as clear.
pub bit_and-clear_self : (x m : ℕ) → m < 2 ^ 32 → bit_and (clear_bits x m) m ≡ 0
unfolding ones
bit_and-clear_self x m hm = eq_of_bits (bit_and (clear_bits x m) m) 0 digit
  where
    digit : (k : ℕ) → bit (bit_and (clear_bits x m) m) k ≡ bit 0 k
    digit k = elim (dec_lt k 32) [
      | yes h ↦ omega (
        arith,
        bit-and (clear_bits x m) m k,
        bit-and x (not32 m) k,
        bit-complement 32 m k (le-ones 32 m hm) h,
        bit-zero k,
        bit-le-one m k,
      )
      | no h ↦ omega (
        arith,
        bit-and (clear_bits x m) m k,
        bit_above 32 m k (le-ones 32 m hm) (omega arith),
        bit-zero k,
      )
    ]

-- No digit of a mask, no digit of a part of it.
pub bit_and-part : (v m part : ℕ) → bit_and m part ≡ part → bit_and v m ≡ 0 → bit_and v part ≡ 0
bit_and-part v m part h e = eq_of_bits (bit_and v part) 0 digit
  where
    digit : (k : ℕ) → bit (bit_and v part) k ≡ bit 0 k
    digit k = omega (
      arith,
      bit-and v part k,
      bit-and m part k,
      bit-and v m k,
      ap (λ t. bit t k) h,
      ap (λ t. bit t k) e,
      bit-zero k,
    )

pub test_bits-whole :
    (v m part : ℕ) → bit_and m part ≡ part → test_bits v part ≡ true → test_bits v m ≡ true
test_bits-whole v m part h t = ground (arith, bit_and-part v m part h)

pub bit_and-low_three : (x : ℕ) → bit_and x 7 ≡ x % 8
unfolding ones
bit_and-low_three x = bit_and-ones 3 x

pub bit_and-low_seven : (x : ℕ) → bit_and x 0x7f ≡ x % 128
unfolding ones
bit_and-low_seven x = bit_and-ones 7 x

pub bit_and-low_eight : (x : ℕ) → bit_and x 0xff ≡ x % 256
unfolding ones
bit_and-low_eight x = bit_and-ones 8 x

pub bit_and-low_sixteen : (x : ℕ) → bit_and x 0xffff ≡ x % 65536
unfolding ones
bit_and-low_sixteen x = bit_and-ones 16 x

-- What was set tests as set.
pub bit_and-or_self : (x m : ℕ) → bit_and (bit_or x m) m ≡ m
bit_and-or_self x m = eq_of_bits (bit_and (bit_or x m) m) m digit
  where
    digit : (k : ℕ) → bit (bit_and (bit_or x m) m) k ≡ bit m k
    digit k = omega (arith, bit-and (bit_or x m) m k, bit-or x m k)

pub bit_and_comm : (a b : ℕ) → bit_and a b ≡ bit_and b a
bit_and_comm a b = eq_of_bits (bit_and a b) (bit_and b a) digit
  where
    digit : (k : ℕ) → bit (bit_and a b) k ≡ bit (bit_and b a) k
    digit k = omega (arith, bit-and a b k, bit-and b a k)

-- A part of what is set is set.
pub bit_and-subset :
    (x m part : ℕ) → bit_and x m ≡ m → bit_and m part ≡ part → bit_and x part ≡ part
bit_and-subset x m part h e = eq_of_bits (bit_and x part) part digit
  where
    digit : (k : ℕ) → bit (bit_and x part) k ≡ bit part k
    digit k = omega (
      arith,
      ap (λ t. bit t k) h,
      ap (λ t. bit t k) e,
      bit-and x part k,
      bit-and x m k,
      bit-and m part k,
    )

-- Setting or clearing some digits leaves the others.
module _ (x m part : ℕ) (apart : bit_and m part ≡ 0) where
  one_digit : (k : ℕ) → min (bit m k) (bit part k) ≡ 0
  one_digit k = omega (arith, ap (λ t. bit t k) apart, bit-and m part k, bit-zero k)

  pub bit_and-or_other : bit_and (bit_or x m) part ≡ bit_and x part
  bit_and-or_other = eq_of_bits (bit_and (bit_or x m) part) (bit_and x part) digit
    where
      digit : (k : ℕ) → bit (bit_and (bit_or x m) part) k ≡ bit (bit_and x part) k
      digit k = omega (
        arith,
        one_digit k,
        bit-and (bit_or x m) part k,
        bit-or x m k,
        bit-and x part k,
        bit-le-one x k,
        bit-le-one m k,
        bit-le-one part k,
      )

  pub bit_and-clear_other : x < 2 ^ 32 → m < 2 ^ 32 → bit_and (clear_bits x m) part ≡ bit_and x part
  bit_and-clear_other hx hm = eq_of_bits (bit_and (clear_bits x m) part) (bit_and x part) digit
    where
      digit : (k : ℕ) → bit (bit_and (clear_bits x m) part) k ≡ bit (bit_and x part) k
      digit k = omega (
        arith,
        one_digit k,
        bit-and (clear_bits x m) part k,
        bit-clear x m k hx hm,
        bit-and x part k,
        bit-le-one x k,
        bit-le-one m k,
        bit-le-one part k,
      )
