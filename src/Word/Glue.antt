-- ===== src/Word/Glue.antt =====
-- The bytes of a value in a word of `w` bits: shifted to their places, they give it again.
use native.Mathlib.Decide.{dec_lt}
use native.Mathlib.Nat.{mod-lt, one-le-pow}
use nano1g_unicorn_c.Base.{
  ℕ, ◌+◌, ◌-◌, ◌*◌, ◌/◌, ◌%◌, ◌^◌, ◌≤◌, ◌<◌, bit_or, ◌≡◌, sym, ◌∙◌, ap, arith,
}
use nano1g_unicorn_c.Word.Bit.{bit, bit-or, bit_above, eq_of_bits}
use nano1g_unicorn_c.Word.Shift.{bit-shl, bit-shl_low, bit-shr, bit-mod}
use nano1g_unicorn_c.Word.Mask.{le-ones}
use nano1g_unicorn_c.Word.Ops.{u8, shr32}

-- The bytes of a value, put together again.
module _ (w v s : ℕ) (fits : s + 8 ≤ w) where
  abbrev byte : ℕ
  byte = u8 (shr32 v s)

  abbrev shifted : ℕ
  shifted = (byte * 2 ^ s) % 2 ^ w

  bit-shl_byte : (k : ℕ) → k < w → bit shifted k ≡ bit (byte * 2 ^ s) k
  bit-shl_byte k h = bit-mod (byte * 2 ^ s) w k h

  glue_low : (k : ℕ) → k < s → bit (bit_or (v % 2 ^ s) shifted) k ≡ bit (v % 2 ^ (s + 8)) k
  glue_low k h = omega (
    arith,
    bit-or (v % 2 ^ s) shifted k,
    bit-mod v s k h,
    bit-shl_byte k (omega arith),
    bit-shl_low byte s k h,
    bit-mod v (s + 8) k (omega arith),
  )

  bit-low_zero : (j : ℕ) → bit (v % 2 ^ s) (s + j) ≡ 0
  bit-low_zero j =
      bit_above s (v % 2 ^ s) (s + j)
        (le-ones s (v % 2 ^ s) (mod-lt v (one-le-pow s 2 (omega arith)))) (omega arith)

  glue_byte :
      (j : ℕ) → j < 8 → bit (bit_or (v % 2 ^ s) shifted) (s + j) ≡ bit (v % 2 ^ (s + 8)) (s + j)
  glue_byte j h = omega (
    arith,
    bit-or (v % 2 ^ s) shifted (s + j),
    bit-low_zero j,
    bit-shl_byte (s + j) (omega arith),
    bit-shl byte s j,
    bit-mod (v / 2 ^ s) 8 j h,
    bit-shr v s j,
    bit-mod v (s + 8) (s + j) (omega arith),
  )

  bit-shl_above : (j : ℕ) → 8 ≤ j → bit shifted (s + j) ≡ 0
  bit-shl_above j h = elim (dec_lt (s + j) w) [
    | yes lt ↦
        bit-shl_byte (s + j) lt
        ∙ bit-shl byte s j
        ∙ bit_above 8 byte j (le-ones 8 byte (omega arith)) h
    | no ge ↦
        bit_above w shifted (s + j)
          (le-ones w shifted (mod-lt (byte * 2 ^ s) (one-le-pow w 2 (omega arith)))) (omega arith)
  ]

  glue_above :
      (j : ℕ) → 8 ≤ j → bit (bit_or (v % 2 ^ s) shifted) (s + j) ≡ bit (v % 2 ^ (s + 8)) (s + j)
  glue_above j h = omega (
    arith,
    bit-or (v % 2 ^ s) shifted (s + j),
    bit-low_zero j,
    bit-shl_above j h,
    bit_above (s + 8) (v % 2 ^ (s + 8)) (s + j)
        (le-ones (s + 8) (v % 2 ^ (s + 8)) (mod-lt v (one-le-pow (s + 8) 2 (omega arith))))
        (omega arith),
  )

  glue_high : (j : ℕ) → bit (bit_or (v % 2 ^ s) shifted) (s + j) ≡ bit (v % 2 ^ (s + 8)) (s + j)
  glue_high j = elim (dec_lt j 8) [ yes h ↦ glue_byte j h | no h ↦ glue_above j (omega arith) ]

  pub glue : bit_or (v % 2 ^ s) shifted ≡ v % 2 ^ (s + 8)
  glue = eq_of_bits (bit_or (v % 2 ^ s) shifted) (v % 2 ^ (s + 8)) digit
    where
      digit : (k : ℕ) → bit (bit_or (v % 2 ^ s) shifted) k ≡ bit (v % 2 ^ (s + 8)) k
      digit k = elim (dec_lt k s) [
        | yes h ↦ glue_low k h
        | no h ↦
            let e : s + (k - s) ≡ k = omega arith in
            ap (bit (bit_or (v % 2 ^ s) shifted)) (sym e)
            ∙ glue_high (k - s)
            ∙ ap (bit (v % 2 ^ (s + 8))) e
      ]
