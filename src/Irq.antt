-- ===== src/Irq.antt =====
-- The status words of the interrupt controller, as the devices set them: a device raises or drops
-- one bit in the words of both cores.
use nano1g_unicorn_c.Base.{
  ℕ, ◌^◌, ◌<◌, ◌≡◌, Bool, false, ◌==◌, if◌then◌else◌, bit_and, bit_or, refl, arith, Bool-cases, inl,
  inr,
}
use nano1g_unicorn_c.Word.{
  clear_bits, test_bits, not32, bit_and-or_self, bit_and-clear_self, bit_and-or_other,
  bit_and-clear_other, bit_or-le-ones, bit_and-le-ones, le-ones, suc-ones,
}
use nano1g_unicorn_c.State.{Intc}

-- The low words.
unfoldable pub drive_lo : Bool → ℕ → Intc → Intc
drive_lo pending bit n =
    if pending
    then record n { cpu_status = bit_or n.cpu_status bit; cop_status = bit_or n.cop_status bit }
    else record n {
      cpu_status = clear_bits n.cpu_status bit;
      cop_status = clear_bits n.cop_status bit;
    }

-- The high words.
unfoldable pub drive_hi : Bool → ℕ → Intc → Intc
drive_hi pending bit n =
    if pending
    then record n {
      hi_cpu_status = bit_or n.hi_cpu_status bit;
      hi_cop_status = bit_or n.hi_cop_status bit;
    }
    else record n {
      hi_cpu_status = clear_bits n.hi_cpu_status bit;
      hi_cop_status = clear_bits n.hi_cop_status bit;
    }

-- The four words hold 32 bits.
pub record HoldWords (n : Intc) : Type 0 where
  pub cpu_in : n.cpu_status < 2 ^ 32
  pub cop_in : n.cop_status < 2 ^ 32
  pub hi_cpu_in : n.hi_cpu_status < 2 ^ 32
  pub hi_cop_in : n.hi_cop_status < 2 ^ 32

or-lt : (x m : ℕ) → x < 2 ^ 32 → m < 2 ^ 32 → bit_or x m < 2 ^ 32
or-lt x m h k = omega (arith, suc-ones 32, bit_or-le-ones 32 x m (le-ones 32 x h) (le-ones 32 m k))

clear-lt : (x m : ℕ) → x < 2 ^ 32 → clear_bits x m < 2 ^ 32
clear-lt x m h = omega (arith, suc-ones 32, bit_and-le-ones 32 x (not32 m) (le-ones 32 x h))

-- A bit shows what it was driven to.
abbrev pub Shows : ℕ → ℕ → ℕ → Bool → Type 0
Shows cpu_word cop_word bit pending =
    (test_bits cpu_word bit ≡ pending) × (test_bits cop_word bit ≡ pending)

module _ (pending : Bool) (bit : ℕ) (n : Intc) (fits : bit < 2 ^ 32)
    (one : (bit == 0) ≡ false) where
  pub drive_hi-Shows :
      Shows
        (drive_hi pending bit n).hi_cpu_status
        (drive_hi pending bit n).hi_cop_status
        bit
        pending
  unfolding drive_hi
  drive_hi-Shows = elim (Bool-cases pending) [
    | inl p ↦ rw p (
      rw (bit_and-or_self n.hi_cpu_status bit, one) refl,
      rw (bit_and-or_self n.hi_cop_status bit, one) refl,
    )
    | inr p ↦ rw p (
      rw (bit_and-clear_self n.hi_cpu_status bit fits) refl,
      rw (bit_and-clear_self n.hi_cop_status bit fits) refl,
    )
  ]

  pub drive_lo-Shows :
      Shows (drive_lo pending bit n).cpu_status (drive_lo pending bit n).cop_status bit pending
  unfolding drive_lo
  drive_lo-Shows = elim (Bool-cases pending) [
    | inl p ↦ rw p (
      rw (bit_and-or_self n.cpu_status bit, one) refl,
      rw (bit_and-or_self n.cop_status bit, one) refl,
    )
    | inr p ↦ rw p (
      rw (bit_and-clear_self n.cpu_status bit fits) refl,
      rw (bit_and-clear_self n.cop_status bit fits) refl,
    )
  ]

module _ (pending : Bool) (bit : ℕ) (n : Intc) (w : HoldWords n) (fits : bit < 2 ^ 32) where
  pub drive_hi-HoldWords : HoldWords (drive_hi pending bit n)
  unfolding drive_hi
  drive_hi-HoldWords = elim (Bool-cases pending) [
    | inl p ↦ rw p (record {
      cpu_in = w.cpu_in;
      cop_in = w.cop_in;
      hi_cpu_in = or-lt n.hi_cpu_status bit w.hi_cpu_in fits;
      hi_cop_in = or-lt n.hi_cop_status bit w.hi_cop_in fits;
    })
    | inr p ↦ rw p (record {
      cpu_in = w.cpu_in;
      cop_in = w.cop_in;
      hi_cpu_in = clear-lt n.hi_cpu_status bit w.hi_cpu_in;
      hi_cop_in = clear-lt n.hi_cop_status bit w.hi_cop_in;
    })
  ]

  pub drive_lo-HoldWords : HoldWords (drive_lo pending bit n)
  unfolding drive_lo
  drive_lo-HoldWords = elim (Bool-cases pending) [
    | inl p ↦ rw p (record {
      cpu_in = or-lt n.cpu_status bit w.cpu_in fits;
      cop_in = or-lt n.cop_status bit w.cop_in fits;
      hi_cpu_in = w.hi_cpu_in;
      hi_cop_in = w.hi_cop_in;
    })
    | inr p ↦ rw p (record {
      cpu_in = clear-lt n.cpu_status bit w.cpu_in;
      cop_in = clear-lt n.cop_status bit w.cop_in;
      hi_cpu_in = w.hi_cpu_in;
      hi_cop_in = w.hi_cop_in;
    })
  ]

  -- The other bits of the words stay.
  module _ (part : ℕ) (apart : bit_and bit part ≡ 0) where
    pub drive_hi-other :
        (bit_and (drive_hi pending bit n).hi_cpu_status part ≡ bit_and n.hi_cpu_status part)
        × (bit_and (drive_hi pending bit n).hi_cop_status part ≡ bit_and n.hi_cop_status part)
    unfolding drive_hi
    drive_hi-other = elim (Bool-cases pending) [
      | inl p ↦ rw p (
        bit_and-or_other n.hi_cpu_status bit part apart,
        bit_and-or_other n.hi_cop_status bit part apart,
      )
      | inr p ↦ rw p (
        bit_and-clear_other n.hi_cpu_status bit part apart w.hi_cpu_in fits,
        bit_and-clear_other n.hi_cop_status bit part apart w.hi_cop_in fits,
      )
    ]
