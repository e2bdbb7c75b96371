-- ===== src/Word/Ops.antt =====
-- The operations on uint32_t that the devices share.
use nano1g_unicorn_c.Base.{
  ℕ, ◌-◌, ◌*◌, ◌/◌, ◌%◌, ◌^◌, Bool, not, bit_and, bit_or, ◌==◌, if◌then◌else◌,
}

-- Conversions to the unsigned types.
abbrev pub u64 : ℕ → ℕ
u64 x = x % 2 ^ 64

abbrev pub u32 : ℕ → ℕ
u32 x = x % 2 ^ 32

abbrev pub u16 : ℕ → ℕ
u16 x = x % 2 ^ 16

abbrev pub u8 : ℕ → ℕ
u8 x = x % 2 ^ 8

-- ~x of a uint32_t.
abbrev pub not32 : ℕ → ℕ
not32 x = 0xffffffff - x

-- x & ~m.
abbrev pub clear_bits : ℕ → ℕ → ℕ
clear_bits x m = bit_and x (not32 m)

-- (x & m) != 0.
abbrev pub test_bits : ℕ → ℕ → Bool
test_bits x m = not (bit_and x m == 0)

-- x << n and x >> n.
abbrev pub shl32 : ℕ → ℕ → ℕ
shl32 x n = u32 (x * 2 ^ n)

abbrev pub shr32 : ℕ → ℕ → ℕ
shr32 x n = x / 2 ^ n

-- offset & ~3u.
abbrev pub align4 : ℕ → ℕ
align4 offset = clear_bits offset 3

-- (offset & 3u) * 8u.
abbrev pub byte_shift : ℕ → ℕ
byte_shift offset = bit_and offset 3 * 8

unfoldable pub mask_for_size : ℕ → ℕ
mask_for_size size = if size == 1 then 0xff else if size == 2 then 0xffff else 0xffffffff

unfoldable pub read_part : ℕ → ℕ → ℕ → ℕ
unfolding mask_for_size
read_part value offset size = bit_and (shr32 value (byte_shift offset)) (mask_for_size size)

unfoldable pub merge_write : ℕ → ℕ → ℕ → ℕ → ℕ
unfolding mask_for_size
merge_write old_value offset size value =
    let shift = byte_shift offset in
    let mask = shl32 (mask_for_size size) shift in
    bit_or (clear_bits old_value mask) (bit_and (shl32 value shift) mask)
