-- ===== src/Intc/Routing.antt =====
-- Every enabled source that is pending reaches its core, as an interrupt of the kind its priority
-- bit asks for.
use nano1g_unicorn_c.Base.{
  ℕ, ◌<◌, ◌^◌, Bool, true, not, ◌&&◌, ◌||◌, ◌==◌, bit_and, Core, ◌≡◌, arith, Bool-cases, inl, inr,
  ap, refl,
}
use nano1g_unicorn_c.Word.{
  bit, bit-and, bit-clear, bit-zero, eq_of_bits, clear_bits, test_bits, le-ones, suc-ones,
  bit_and-le-ones, not32,
}
use nano1g_unicorn_c.State.{State}
use nano1g_unicorn_c.Intc.{
  lo_status, hi_status, enable_of, priority_of, hi_enable_of, hi_priority_of, irq_pending,
  fiq_pending,
}

-- A word is 0 when the parts of it under a mask and outside are.
zero_of_parts : (x p : ℕ) → x < 2 ^ 32 → p < 2 ^ 32 → clear_bits x p ≡ 0 → bit_and x p ≡ 0 → x ≡ 0
zero_of_parts x p hx hp c a = eq_of_bits x 0 digit
  where
    digit : (k : ℕ) → bit x k ≡ bit 0 k
    digit k = omega (
      arith,
      ap (λ t. bit t k) c,
      ap (λ t. bit t k) a,
      bit-clear x p k hx hp,
      bit-and x p k,
      bit-zero k,
    )

bit_and_zero : (p : ℕ) → bit_and 0 p ≡ 0
bit_and_zero p = eq_of_bits (bit_and 0 p) 0 digit
  where
    digit : (k : ℕ) → bit (bit_and 0 p) k ≡ bit 0 k
    digit k = omega (arith, bit-and 0 p k, bit-zero k)

test_parts :
    (x p : ℕ)
    → x < 2 ^ 32
    → p < 2 ^ 32
    → (not (clear_bits x p == 0) || not (bit_and x p == 0)) ≡ not (x == 0)
test_parts x p hx hp = elim (Bool-cases (x == 0)) [
  | inl e ↦ let z : x ≡ 0 = ground arith in rw z (rw (bit_and_zero (not32 p), bit_and_zero p) refl)
  | inr ne ↦ ground (arith, zero_of_parts x p hx hp)
]

and-lt : (x m : ℕ) → x < 2 ^ 32 → bit_and x m < 2 ^ 32
and-lt x m h = omega (arith, suc-ones 32, bit_and-le-ones 32 x m (le-ones 32 x h))

-- The registers that decide for a core hold 32 bits.
pub record HoldsWords (s : State) (core : Core) : Type 0 where
  pub lo_in : lo_status s core < 2 ^ 32
  pub hi_in : hi_status s core < 2 ^ 32
  pub priority_in : priority_of s core < 2 ^ 32
  pub hi_priority_in : hi_priority_of s core < 2 ^ 32

bool_parts :
    (a b c d x y : Bool) → (a || b) ≡ x → (c || d) ≡ y → ((a || (true && c)) || (b || d)) ≡ (x || y)
bool_parts a b c d x y h k = ground (arith, h, k)

-- With the registers holding 32 bits and the summary bit enabled, a core has an IRQ or a FIQ pending
-- exactly when one of its enabled sources, low or high, is pending or forced: the priority registers
-- lose none and invent none.
pub pending-iff-source :
    (s : State) (core : Core)
    → HoldsWords s core
    → test_bits (enable_of s core) 0x40000000 ≡ true
    → (irq_pending s core || fiq_pending s core) ≡ (
        test_bits (lo_status s core) (enable_of s core)
        || test_bits (hi_status s core) (hi_enable_of s core))
unfolding irq_pending fiq_pending
pending-iff-source s core w on =
    let lo = bit_and (lo_status s core) (enable_of s core) in
    let hi = bit_and (hi_status s core) (hi_enable_of s core) in
    rw on (
      bool_parts (not (clear_bits lo (priority_of s core) == 0))
        (not (bit_and lo (priority_of s core) == 0))
        (not (clear_bits hi (hi_priority_of s core) == 0))
        (not (bit_and hi (hi_priority_of s core) == 0)) (not (lo == 0)) (not (hi == 0))
        (test_parts lo (priority_of s core) (and-lt _ _ w.lo_in) w.priority_in)
        (test_parts hi (hi_priority_of s core) (and-lt _ _ w.hi_in) w.hi_priority_in))
