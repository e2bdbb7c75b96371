-- ===== src/Ram/Inner.antt =====
-- A byte of an access that lands in memory.
use nano1g_unicorn_c.Base.{
  ℕ, ◌+◌, ◌-◌, ◌%◌, ◌^◌, ◌≤◌, ◌<◌, ◌≡◌, ◌⊎◌, inl, inr, arith, some, true, Bool-cases, ltb,
}
use nano1g_unicorn_c.State.{State}
use nano1g_unicorn_c.Ram.{
  Pointer, into_sdram, into_fastram, ram_ptr, sdram_size, sdram_base, sdram_alias_base,
  fastram_base, fastram_size, is_low_ram, last_byte,
}

abbrev InWindow : ℕ → ℕ → ℕ → ℕ → Type 0
InWindow base off addr size =
    (base ≤ addr)
    × (addr + size ≤ base + 0x8000000)
    × (off ≡ (addr - base) % sdram_size)
    × (off + size ≤ sdram_size)

-- The ways to a pointer.
abbrev Lands : State → Pointer → ℕ → ℕ → Type 0
Lands s (into_sdram off) addr size =
    InWindow sdram_base off addr size
    ⊎ (InWindow sdram_alias_base off addr size
        ⊎ ((is_low_ram s.low0_map ≡ true) × (addr + size ≤ sdram_size) × (off ≡ addr)))
Lands s (into_fastram off) addr size =
    (fastram_base ≤ addr)
    × (addr + size ≤ fastram_base + fastram_size)
    × (off ≡ addr - fastram_base)

module _ (s : State) (addr size : ℕ) (ha : addr < 2 ^ 32) (hs : size < 2 ^ 32)
    (pos : 0 < size) where
  last : last_byte addr size ≡ addr + size - 1
  last = omega arith

  ram_ptr-Lands : (p : Pointer) → ram_ptr s addr size ≡ some p → Lands s p addr size
  unfolding ram_ptr
  ram_ptr-Lands (into_sdram off) e = elim (Bool-cases (ltb (last_byte addr size) sdram_size)) [
    | inl low ↦ inr (inr (ground arith))
    | inr high ↦ elim (Bool-cases (ltb addr sdram_alias_base)) [
      | inl h ↦ inl (ground arith)
      | inr h ↦ inr (inl (ground arith))
    ]
  ]
  ram_ptr-Lands (into_fastram off) e = ground arith

  Lands-ram_ptr : (p : Pointer) → Lands s p addr size → ram_ptr s addr size ≡ some p
  unfolding ram_ptr
  Lands-ram_ptr (into_sdram off) (inl h) = ground arith
  Lands-ram_ptr (into_sdram off) (inr (inl h)) = ground arith
  Lands-ram_ptr (into_sdram off) (inr (inr h)) = ground arith
  Lands-ram_ptr (into_fastram off) h = ground arith

abbrev pub shift : Pointer → ℕ → Pointer
shift (into_sdram off) i = into_sdram (off + i)
shift (into_fastram off) i = into_fastram (off + i)

Lands-shift :
    (s : State) (addr size i : ℕ) (p : Pointer)
    → i < size
    → Lands s p addr size
    → (addr + i < 2 ^ 32) × Lands s (shift p i) (addr + i) 1
Lands-shift s addr size i (into_sdram off) lt (inl (a, b, c, d)) =
    (omega arith, inl (omega arith, omega arith, omega arith, omega arith))
Lands-shift s addr size i (into_sdram off) lt (inr (inl (a, b, c, d))) =
    (omega arith, inr (inl (omega arith, omega arith, omega arith, omega arith)))
Lands-shift s addr size i (into_sdram off) lt (inr (inr (a, b, c))) =
    (omega arith, inr (inr (a, omega arith, omega arith)))
Lands-shift s addr size i (into_fastram off) lt (a, b, c) = omega arith

-- Byte `i` of an access is byte `i` of what the access points to.
pub ram_ptr-shift :
    (s : State) (addr size i : ℕ) (p : Pointer)
    → addr < 2 ^ 32
    → size < 2 ^ 32
    → i < size
    → ram_ptr s addr size ≡ some p
    → ram_ptr s (addr + i) 1 ≡ some (shift p i)
ram_ptr-shift s addr size i p ha hs lt e =
    let (small, lands) =
      Lands-shift s addr size i p lt (ram_ptr-Lands s addr size ha hs (omega arith) p e) in
    Lands-ram_ptr s (addr + i) 1 small (omega arith) (omega arith) (shift p i) lands
