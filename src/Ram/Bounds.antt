-- ===== src/Ram/Bounds.antt =====
-- Every pointer that ram.c hands out lies, with all the bytes of the access, inside its allocation.
use nano1g_unicorn_c.Base.{ℕ, ◌+◌, ◌*◌, ◌^◌, ◌≤◌, ◌<◌, ◌≡◌, arith, some}
use nano1g_unicorn_c.State.{State}
use nano1g_unicorn_c.Ram.{
  Pointer, into_sdram, into_fastram, ram_ptr, sdram_size, sdram_base, sdram_alias_base,
  fastram_size,
}

abbrev pub InBounds : Pointer → ℕ → Type 0
InBounds (into_sdram off) size = off + size ≤ sdram_size
InBounds (into_fastram off) size = off + size ≤ fastram_size

-- The pointer that ram_ptr gives to an access of at least one byte, at an address and of a size
-- below 2 ^ 32, lies with all bytes of the access in its allocation.
pub ram_ptr-InBounds :
    (s : State) (addr size : ℕ) {p : Pointer}
    → addr < 2 ^ 32
    → 0 < size
    → size < 2 ^ 32
    → ram_ptr s addr size ≡ some p
    → InBounds p size
unfolding ram_ptr
ram_ptr-InBounds s addr size {p = into_sdram off} ha pos hs e = ground arith
ram_ptr-InBounds s addr size {p = into_fastram off} ha pos hs e = ground arith

-- For an access of at least one byte that fits into the SDRAM at offset `off`, each of the four
-- mirrors of both windows points to those bytes.
ram_ptr-mirrors :
    (s : State) (off size i : ℕ)
    → 0 < size
    → off + size ≤ sdram_size
    → i < 4
    → (ram_ptr s (sdram_base + i * sdram_size + off) size ≡ some (into_sdram off))
      × (ram_ptr s (sdram_alias_base + i * sdram_size + off) size ≡ some (into_sdram off))
unfolding ram_ptr
ram_ptr-mirrors s off size i pos h hi = ground arith
