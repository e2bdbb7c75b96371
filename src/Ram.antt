-- ===== src/Ram.antt =====
-- src/ram.c: where an address lies in the two memories, and sized little-endian accesses.
pub mod Bounds
pub mod Copy
pub mod Inner
pub mod RoundTrip
mod Tests
use nano1g_unicorn_c.Base.{
  ℕ, zero, suc, ◌+◌, ◌-◌, ◌*◌, ◌/◌, ◌%◌, ◌^◌, Bool, true, false, ◌&&◌, ltb, leb, if◌then◌else◌,
  bit_or, Option, some, none, Array, store,
}
use nano1g_unicorn_c.Word.{u8, shl32, shr32}
use nano1g_unicorn_c.State.{State, LowMap, low_none, low_ram, low_flash}

abbrev pub sdram_base : ℕ
sdram_base = 0x10000000

abbrev pub sdram_size : ℕ
sdram_size = 0x2000000

abbrev pub sdram_alias_base : ℕ
sdram_alias_base = 0x90000000

abbrev pub fastram_base : ℕ
fastram_base = 0x40000000

abbrev pub fastram_size : ℕ
fastram_size = 0x20000

-- A pointer into one of the two allocations.
pub data Pointer : Type 0 where
  into_sdram into_fastram : ℕ → Pointer

abbrev pub is_low_ram : LowMap → Bool
is_low_ram low_ram = true
is_low_ram low_none = false
is_low_ram low_flash = false

-- addr + size - 1 in size_t, which is 64 bits wide.
abbrev pub last_byte : ℕ → ℕ → ℕ
last_byte addr size = (addr + size + 2 ^ 64 - 1) % 2 ^ 64

-- One of the two windows onto SDRAM, which repeat it four times; `none` to go on with the next test.
window_ptr : ℕ → ℕ → ℕ → ℕ → Option Pointer
window_ptr base end addr size =
    let off = (addr - base) % sdram_size in
    if leb base addr && leb (last_byte addr size) end && leb (off + size) sdram_size
    then some (into_sdram off)
    else none

or_else : Option Pointer → Option Pointer → Option Pointer
or_else none q = q
or_else (some p) q = some p

-- n1g_ram_ptr. A size_t sum of a 32-bit offset and a size wraps only for a size near 2 ^ 64.
unfoldable pub ram_ptr : State → ℕ → ℕ → Option Pointer
unfolding window_ptr or_else
ram_ptr s addr size = or_else (window_ptr sdram_base 0x17ffffff addr size) (
    or_else (window_ptr sdram_alias_base 0x97ffffff addr size) (
      if is_low_ram s.low0_map && ltb (last_byte addr size) sdram_size
      then some (into_sdram addr)
      else if leb fastram_base addr && ltb (last_byte addr size) (fastram_base + fastram_size)
      then some (into_fastram (addr - fastram_base))
      else none))

-- load_le: the rounds i = 0, 1, … up to `size`, the last one outermost.
unfoldable pub load_le : Array ℕ → ℕ → ℕ → ℕ
load_le m off zero = 0
load_le m off (suc i) = bit_or (load_le m off i) (shl32 (m (off + i)) (8 * i))

-- store_le, in the same order.
unfoldable pub store_le : Array ℕ → ℕ → ℕ → ℕ → Array ℕ
store_le m off zero value = m
store_le m off (suc i) value = store (store_le m off i value) (off + i) (u8 (shr32 value (8 * i)))

-- The memory behind a pointer.
abbrev pub load_ptr : State → Pointer → ℕ → ℕ
load_ptr s (into_sdram off) size = load_le s.ram.sdram off size
load_ptr s (into_fastram off) size = load_le s.ram.fastram off size

abbrev pub store_ptr : State → Pointer → ℕ → ℕ → State
store_ptr s (into_sdram off) size value = record s {
  ram = record s.ram { sdram = store_le s.ram.sdram off size value };
}
store_ptr s (into_fastram off) size value = record s {
  ram = record s.ram { fastram = store_le s.ram.fastram off size value };
}

-- n1g_ram_read: `none` where the C function returns false and leaves *out alone.
unfoldable pub ram_read : State → ℕ → ℕ → Option ℕ
ram_read s addr size = elim (ram_ptr s addr size) [
  | none ↦ none
  | some p ↦ some (load_ptr s p size)
]

-- n1g_ram_write: `none` where it returns false.
unfoldable pub ram_write : State → ℕ → ℕ → ℕ → Option State
ram_write s addr size value = elim (ram_ptr s addr size) [
  | none ↦ none
  | some p ↦ some (store_ptr s p size value)
]
