-- ===== src/Ram/Copy.antt =====
-- memcpy into what n1g_ram_ptr gives, and the bytes read there afterwards.
use nano1g_unicorn_c.Base.{
  copy_bytes, ℕ, ◌+◌, ◌-◌, ◌^◌, ◌<◌, ◌≡◌, refl, ◌∙◌, ap, ap₂, arith, some, Array, bit_or,
}
use nano1g_unicorn_c.Word.{shl32, eq_of_bits, bit-or, bit-zero, bit-le-one}
use nano1g_unicorn_c.State.{State}
use nano1g_unicorn_c.Ram.{Pointer, into_sdram, into_fastram, ram_ptr, ram_read, load_le, load_ptr}
use nano1g_unicorn_c.Ram.Inner.{shift, ram_ptr-shift}
use nano1g_unicorn_c.Ram.RoundTrip.{ram_read_at}

-- memcpy of `n` bytes of `src` from `from` on.
abbrev pub copy_to : State → Pointer → Array ℕ → ℕ → ℕ → State
copy_to s (into_sdram off) src from n = record s {
  ram = record s.ram { sdram = copy_bytes s.ram.sdram off src from n };
}
copy_to s (into_fastram off) src from n = record s {
  ram = record s.ram { fastram = copy_bytes s.ram.fastram off src from n };
}

index : (from off i : ℕ) → from + (off + i + 0 - off) ≡ from + i + 0
index from off i = omega arith

load_le-copy :
    (m src : Array ℕ) (off from n i : ℕ)
    → i < n
    → load_le (copy_bytes m off src from n) (off + i) 1 ≡ load_le src (from + i) 1
unfolding load_le
load_le-copy m src off from n i lt =
    ap (λ v. bit_or 0 (shl32 v 0)) (ground (arith, ap src (index from off i)))

pub ram_ptr-copy_to :
    (s : State) (p : Pointer) (src : Array ℕ) (from n addr size : ℕ)
    → ram_ptr (copy_to s p src from n) addr size ≡ ram_ptr s addr size
unfolding ram_ptr
ram_ptr-copy_to s (into_sdram off) src from n addr size = refl
ram_ptr-copy_to s (into_fastram off) src from n addr size = refl

load_ptr-copy_to :
    (s : State) (p : Pointer) (src : Array ℕ) (from n i : ℕ)
    → i < n
    → load_ptr (copy_to s p src from n) (shift p i) 1 ≡ load_le src (from + i) 1
load_ptr-copy_to s (into_sdram off) src from n i lt = load_le-copy s.ram.sdram src off from n i lt
load_ptr-copy_to s (into_fastram off) src from n i lt =
    load_le-copy s.ram.fastram src off from n i lt

pub ram_read-copy_to :
    (s : State) (addr n i from : ℕ) (p : Pointer) (src : Array ℕ)
    → addr < 2 ^ 32
    → n < 2 ^ 32
    → i < n
    → ram_ptr s addr n ≡ some p
    → ram_read (copy_to s p src from n) (addr + i) 1 ≡ some (load_le src (from + i) 1)
ram_read-copy_to s addr n i from p src ha hs lt e =
    ram_read_at (copy_to s p src from n) (addr + i) 1
      (ram_ptr-copy_to s p src from n (addr + i) 1 ∙ ram_ptr-shift s addr n i p ha hs lt e)
    ∙ ap some (load_ptr-copy_to s p src from n i lt)

zero-or : (x : ℕ) → bit_or 0 x ≡ x
zero-or x = eq_of_bits (bit_or 0 x) x (λ k. omega (arith, bit-or 0 x k, bit-zero k, bit-le-one x k))

pub load_le-byte : (m : Array ℕ) (off : ℕ) → m off < 2 ^ 8 → load_le m off 1 ≡ m off
unfolding load_le
load_le-byte m off h =
    zero-or (shl32 (m (off + 0)) 0)
    ∙ (let e : m (off + 0) ≡ m off = ap m (omega arith) in rw e (omega arith))

-- A read depends on the memories and on the low map alone.
pub ram_read-same :
    (s t : State) (addr size : ℕ)
    → t.ram ≡ s.ram
    → t.low0_map ≡ s.low0_map
    → ram_read t addr size ≡ ram_read s addr size
unfolding ram_read ram_ptr
ram_read-same s t addr size e l =
    ap₂ (λ r m. ram_read (record s { ram = r; low0_map = m }) addr size) e l
