-- ===== src/Ram/RoundTrip.antt =====
-- Sized little-endian accesses: what was written is read back, through any alias, and the bytes
-- outside the access stay.
use native.Mathlib.Decide.{ℕ_discrete}
use nano1g_unicorn_c.Base.{
  ℕ, zero, suc, ◌+◌, ◌*◌, ◌%◌, ◌^◌, ◌≤◌, ◌<◌, bit_or, ◌≡◌, ◌⊎◌, refl, sym, ◌∙◌, ap, ap₂, arith,
  some, Array, store_self, store_ne,
}
use nano1g_unicorn_c.Word.{glue, u8, shl32, shr32}
use nano1g_unicorn_c.State.{State}
use nano1g_unicorn_c.Ram.{
  Pointer, into_sdram, into_fastram, ram_ptr, load_le, store_le, ram_read, ram_write, load_ptr,
  store_ptr,
}

-- Below the write and above it the memory is as before.
pub store_le_outside :
    (m : Array ℕ) (off n value j : ℕ) → (j < off) ⊎ (off + n ≤ j) → store_le m off n value j ≡ m j
unfolding store_le
store_le_outside m off zero value j h = refl
store_le_outside m off (suc i) value j h = ground (arith, store_le_outside m off i value j)

-- Byte k of the write.
pub store_le_inside :
    (m : Array ℕ) (off n value k : ℕ)
    → k < n
    → store_le m off n value (off + k) ≡ u8 (shr32 value (8 * k))
unfolding store_le
store_le_inside m off zero value k h = absurd (omega arith)
store_le_inside m off (suc i) value k h = elim (ℕ_discrete k i) [
  | yes e ↦ rw e (store_self (store_le m off i value) (off + i) (u8 (shr32 value (8 * i))))
  | no ne ↦
      store_ne (store_le m off i value) (off + i) (off + k) (u8 (shr32 value (8 * i)))
        (λ e. ne (omega arith))
      ∙ store_le_inside m off i value k (omega arith)
]

-- The loop of load_le over bytes that are those of v.
load_le-bytes :
    (m : Array ℕ) (off v n : ℕ)
    → n ≤ 4
    → ((k : ℕ) → k < n → m (off + k) ≡ u8 (shr32 v (8 * k)))
    → load_le m off n ≡ v % 2 ^ (8 * n)
unfolding load_le
load_le-bytes m off v zero h b = omega arith
load_le-bytes m off v (suc i) h b =
    ap₂ bit_or (load_le-bytes m off v i (omega arith) (λ k lt. b k (omega arith)))
      (ap (λ t. shl32 t (8 * i)) (b i (omega arith)))
    ∙ glue 32 v (8 * i) (omega arith)
    ∙ ap (λ t. v % 2 ^ t) (omega arith)

pub load_le-store_le :
    (m : Array ℕ) (off v n : ℕ) → n ≤ 4 → load_le (store_le m off n v) off n ≡ v % 2 ^ (8 * n)
load_le-store_le m off v n h =
    load_le-bytes (store_le m off n v) off v n h (λ k lt. store_le_inside m off n v k lt)

pub load_le-store_le_ne :
    (m : Array ℕ) (off n value off' n' : ℕ)
    → (off' + n' ≤ off) ⊎ (off + n ≤ off')
    → load_le (store_le m off n value) off' n' ≡ load_le m off' n'
unfolding load_le
load_le-store_le_ne m off n value off' zero h = refl
load_le-store_le_ne m off n value off' (suc i) h =
    ap₂ bit_or (load_le-store_le_ne m off n value off' i (ground arith))
      (ap (λ t. shl32 t (8 * i)) (store_le_outside m off n value (off' + i) (ground arith)))

-- Where an address points does not depend on the contents.
ram_ptr-store_ptr :
    (s : State) (p : Pointer) (n v addr size : ℕ)
    → ram_ptr (store_ptr s p n v) addr size ≡ ram_ptr s addr size
unfolding ram_ptr
ram_ptr-store_ptr s (into_sdram off) n v addr size = refl
ram_ptr-store_ptr s (into_fastram off) n v addr size = refl

load_ptr-store_ptr :
    (s : State) (p : Pointer) (n v : ℕ) → n ≤ 4 → load_ptr (store_ptr s p n v) p n ≡ v % 2 ^ (8 * n)
load_ptr-store_ptr s (into_sdram off) n v h = load_le-store_le s.ram.sdram off v n h
load_ptr-store_ptr s (into_fastram off) n v h = load_le-store_le s.ram.fastram off v n h

pub ram_read_at :
    (s : State) (addr size : ℕ) {p : Pointer}
    → ram_ptr s addr size ≡ some p
    → ram_read s addr size ≡ some (load_ptr s p size)
unfolding ram_read
ram_read_at s addr size e = rw (e, ram_read)

-- A write of at most 4 bytes that lands in memory succeeds, and is read back, by an access of the
-- same size, through every address that points to the same bytes, cut to the size of the access.
pub ram_read-ram_write :
    (s : State) (addr alias size value : ℕ) {p : Pointer}
    → size ≤ 4
    → ram_ptr s addr size ≡ some p
    → ram_ptr s alias size ≡ some p
    → (s' : State) × (ram_write s addr size value ≡ some s')
      × (ram_read s' alias size ≡ some (value % 2 ^ (8 * size)))
unfolding ram_write ram_read
ram_read-ram_write s addr alias size value {p = p} small e e' = (
  store_ptr s p size value,
  rw (e, ram_write),
  ram_read_at (store_ptr s p size value) alias size
        (ram_ptr-store_ptr s p size value alias size ∙ e')
      ∙ ap some (load_ptr-store_ptr s p size value small),
)

-- The bytes of two accesses do not meet.
abbrev pub Apart : Pointer → ℕ → Pointer → ℕ → Type 0
Apart (into_sdram off) n (into_sdram off') n' = (off' + n' ≤ off) ⊎ (off + n ≤ off')
Apart (into_sdram off) n (into_fastram off') n' = Unit
Apart (into_fastram off) n (into_sdram off') n' = Unit
Apart (into_fastram off) n (into_fastram off') n' = (off' + n' ≤ off) ⊎ (off + n ≤ off')

load_ptr-store_ptr_ne :
    (s : State) (p q : Pointer) (n v n' : ℕ)
    → Apart p n q n'
    → load_ptr (store_ptr s p n v) q n' ≡ load_ptr s q n'
load_ptr-store_ptr_ne s (into_sdram off) (into_sdram off') n v n' h =
    load_le-store_le_ne s.ram.sdram off n v off' n' h
load_ptr-store_ptr_ne s (into_sdram off) (into_fastram off') n v n' h = refl
load_ptr-store_ptr_ne s (into_fastram off) (into_sdram off') n v n' h = refl
load_ptr-store_ptr_ne s (into_fastram off) (into_fastram off') n v n' h =
    load_le-store_le_ne s.ram.fastram off n v off' n' h

-- A write that lands in memory succeeds, and leaves every read that lands in memory and whose bytes
-- it does not meet as it was.
pub ram_read-ram_write_ne :
    (s : State) (addr size value addr' size' : ℕ) {p q : Pointer}
    → ram_ptr s addr size ≡ some p
    → ram_ptr s addr' size' ≡ some q
    → Apart p size q size'
    → (s' : State) × (ram_write s addr size value ≡ some s')
      × (ram_read s' addr' size' ≡ ram_read s addr' size')
unfolding ram_write
ram_read-ram_write_ne s addr size value addr' size' {p = p} {q = q} e e' apart = (
  store_ptr s p size value,
  rw (e, ram_write),
  ram_read_at (store_ptr s p size value) addr' size'
        (ram_ptr-store_ptr s p size value addr' size' ∙ e')
      ∙ ap some (load_ptr-store_ptr_ne s p q size value size' apart)
      ∙ sym (ram_read_at s addr' size' e'),
)
