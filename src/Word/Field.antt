-- ===== src/Word/Field.antt =====
-- What a sized access to a 32-bit register reads and writes.
use native.Mathlib.Decide.{dec_lt}
use native.Mathlib.Nat.{mod-eq_of_lt}
use nano1g_unicorn_c.Base.{
  ℕ, zero, suc, ◌+◌, ◌-◌, ◌*◌, ◌/◌, ◌%◌, ◌^◌, ◌≤◌, ◌<◌, min, max, bit_and, bit_or, ◌≡◌, ap, arith,
  ◌⊎◌,
}
use nano1g_unicorn_c.Word.Bit.{
  bit, bit-zero, bit-and, bit-or, bit_above, bit-le-one, eq_of_bits, bit_or-le-ones,
  bit_and-le-ones,
}
use nano1g_unicorn_c.Word.Shift.{suc-ones, bit-shr, bit-shl, bit-mod}
use nano1g_unicorn_c.Word.Mask.{bit-clear, le-ones, bit_and-low_two}
use nano1g_unicorn_c.Word.Ops.{
  not32, clear_bits, shl32, byte_shift, mask_for_size, read_part, merge_write,
}

-- The write of the field (s, m): the digits under the mask m << s come from v << s.
module _ (old v s m : ℕ) (hold : old < 2 ^ 32) (hmask : m * 2 ^ s < 2 ^ 32) where
  abbrev pub write_field : ℕ
  write_field = bit_or (clear_bits old (m * 2 ^ s)) (bit_and (shl32 v s) (m * 2 ^ s))

  bit-write_field :
      (k : ℕ)
      → bit write_field k
        ≡ max (bit old k - bit (m * 2 ^ s) k) (min (bit (shl32 v s) k) (bit (m * 2 ^ s) k))
  bit-write_field k = omega (
    arith,
    bit-or (clear_bits old (m * 2 ^ s)) (bit_and (shl32 v s) (m * 2 ^ s)) k,
    bit-clear old (m * 2 ^ s) k hold hmask,
    bit-and (shl32 v s) (m * 2 ^ s) k,
  )

  -- Reading the field that was written gives the digits written.
  pub read-write_field : bit_and (write_field / 2 ^ s) m ≡ bit_and v m
  read-write_field = eq_of_bits (bit_and (write_field / 2 ^ s) m) (bit_and v m) digit
    where
      digit : (k : ℕ) → bit (bit_and (write_field / 2 ^ s) m) k ≡ bit (bit_and v m) k
      digit k = elim (dec_lt (s + k) 32) [
        | yes h ↦ omega (
          arith,
          bit-and (write_field / 2 ^ s) m k,
          bit-shr write_field s k,
          bit-write_field (s + k),
          bit-shl m s k,
          bit-mod (v * 2 ^ s) 32 (s + k) h,
          bit-shl v s k,
          bit-and v m k,
          bit-le-one old (s + k),
          bit-le-one m k,
          bit-le-one v k,
        )
        | no h ↦ omega (
          arith,
          bit-and (write_field / 2 ^ s) m k,
          bit-and v m k,
          bit-shl m s k,
          bit_above 32 (m * 2 ^ s) (s + k) (le-ones 32 (m * 2 ^ s) hmask) (omega arith),
        )
      ]

  -- A field under a mask that shares no digit with this one reads as before.
  pub read-write_field_ne :
      (s' m' : ℕ)
      → bit_and (m * 2 ^ s) (m' * 2 ^ s') ≡ 0
      → bit_and (write_field / 2 ^ s') m' ≡ bit_and (old / 2 ^ s') m'
  read-write_field_ne s' m' h =
      eq_of_bits (bit_and (write_field / 2 ^ s') m') (bit_and (old / 2 ^ s') m') digit
    where
      digit :
          (k : ℕ) → bit (bit_and (write_field / 2 ^ s') m') k ≡ bit (bit_and (old / 2 ^ s') m') k
      digit k = omega (
        arith,
        bit-and (write_field / 2 ^ s') m' k,
        bit-and (old / 2 ^ s') m' k,
        bit-shr write_field s' k,
        bit-shr old s' k,
        bit-write_field (s' + k),
        bit-shl m' s' k,
        ap (λ t. bit t (s' + k)) h,
        bit-and (m * 2 ^ s) (m' * 2 ^ s') (s' + k),
        bit-zero (s' + k),
        bit-le-one (m * 2 ^ s) (s' + k),
        bit-le-one old (s' + k),
        bit-le-one m' k,
      )

-- The sizes that the bus uses, at an offset where the access stays within its word.
abbrev pub IsAccess : ℕ → ℕ → Type 0
IsAccess offset size = ((size ≡ 1) ⊎ ((size ≡ 2) ⊎ (size ≡ 4))) × (offset % 4 + size ≤ 4)

mask_fits :
    (r size : ℕ)
    → (size ≡ 1) ⊎ ((size ≡ 2) ⊎ (size ≡ 4))
    → r + size ≤ 4
    → mask_for_size size * 2 ^ (r * 8) < 2 ^ 32
unfolding mask_for_size
mask_fits zero size e h = ground arith
mask_fits (suc zero) size e h = ground arith
mask_fits (suc (suc zero)) size e h = ground arith
mask_fits (suc (suc (suc zero))) size e h = ground arith
mask_fits (suc (suc (suc (suc r)))) size e h = absurd (ground arith)

access_fits :
    (offset size : ℕ) → IsAccess offset size → mask_for_size size * 2 ^ byte_shift offset < 2 ^ 32
access_fits offset size a = rw (bit_and-low_two offset) (mask_fits (offset % 4) size a.0 a.1)

-- For an access of 1, 2 or 4 bytes within a 32-bit register, a sized read returns what a write of
-- the same size at the same offset put there.
read_part-merge_write :
    (old offset size v : ℕ)
    → old < 2 ^ 32
    → IsAccess offset size
    → read_part (merge_write old offset size v) offset size ≡ bit_and v (mask_for_size size)
unfolding read_part merge_write
read_part-merge_write old offset size v hold a =
    let fits = access_fits offset size a in
    rw (mod-eq_of_lt fits)
      (read-write_field old v (byte_shift offset) (mask_for_size size) hold fits)

-- A register stays a uint32_t.
pub merge_write-lt : (old offset size v : ℕ) → old < 2 ^ 32 → merge_write old offset size v < 2 ^ 32
unfolding merge_write
merge_write-lt old offset size v h =
    let shift = byte_shift offset in
    let mask = shl32 (mask_for_size size) shift in
    omega (
      arith,
      suc-ones 32,
      bit_or-le-ones 32 (clear_bits old mask) (bit_and (shl32 v shift) mask)
          (bit_and-le-ones 32 old (not32 mask) (le-ones 32 old h))
          (bit_and-le-ones 32 (shl32 v shift) mask (le-ones 32 (shl32 v shift) (omega arith))),
    )
