-- ===== src/I2c/Backup.antt =====
-- The saved power chip: its clock goes on from the saved time in any machine.
use nano1g_unicorn_c.Base.{
  ℕ, ◌+◌, ◌^◌, ◌≤◌, ◌≡◌, true, bit_and, bit_or, if◌then◌else◌, Array, some, refl, arith, Bool-cases,
  inl, inr, ap, ◌∙◌,
}
use nano1g_unicorn_c.Word.{test_bits, bit-or, bit_and-pow}
use nano1g_unicorn_c.State.{State}
use nano1g_unicorn_c.I2c.Battery.{has_written}
use nano1g_unicorn_c.I2c.Rtc.{
  default_rtc, seconds_since, pcf_rtc_fields, pcf_rtc_advance_fields, with_fields, rtc_written_mask,
  from_fields, i2c_save_pcf, i2c_restore_pcf,
}
use nano1g_unicorn_c.I2c.Dates.{HoldDate, advance_fields-add}

-- The fields that the clock counts from.
abbrev pub base_fields : State → Array ℕ
base_fields s = if has_written s.i2c 0x0a then (λ i. s.i2c.pcf_regs (0x0a + i)) else default_rtc

abbrev pub base_ticks : State → ℕ
base_ticks s = if has_written s.i2c 0x0a then s.i2c.rtc_base_ticks else 0

pub fields-base :
    (s : State)
    → pcf_rtc_fields s ≡ pcf_rtc_advance_fields (base_fields s) (seconds_since s (base_ticks s))
unfolding pcf_rtc_fields
fields-base s = elim (Bool-cases (has_written s.i2c 0x0a)) [ inl h ↦ rw h refl | inr h ↦ rw h refl ]

-- The mark of the saved chip that the guest has set the date.
pub test_bits-written : (x : ℕ) → test_bits (bit_or x rtc_written_mask) (2 ^ 0x0a) ≡ true
test_bits-written x =
    let some_bit : 1 ≤ bit_and (bit_or x rtc_written_mask) (2 ^ 0x0a) = omega (
      arith,
      bit_and-pow (bit_or x rtc_written_mask) 10,
      bit-or x rtc_written_mask 10,
      bit_and-pow rtc_written_mask 10,
    ) in
    ground (arith, some_bit)

-- Only the seven fields of the date are read.
pub advance-with_fields :
    (regs fields : Array ℕ) (e : ℕ)
    → pcf_rtc_advance_fields (λ i. with_fields regs fields (0x0a + i)) e
      ≡ pcf_rtc_advance_fields fields e
unfolding pcf_rtc_advance_fields from_fields with_fields
advance-with_fields regs fields e = refl

-- A machine into which a saved chip was put, and which was ticked on to `later` ticks.
abbrev pub restored_at : State → State → ℕ → State
restored_at u s later =
    let t = i2c_restore_pcf u (some (i2c_save_pcf s)) in
    record t { counters = record t.counters { device_ticks = later } }

-- A chip whose clock counts from a valid date, saved in one machine and restored in any other, shows
-- there the date that it had when it was saved, advanced by the time since it was restored: the clock
-- neither stops nor jumps.
pub restore_pcf-save_pcf :
    (u s : State) (later : ℕ)
    → HoldDate (base_fields s)
    → pcf_rtc_fields (restored_at u s later)
      ≡ pcf_rtc_advance_fields (base_fields s) (
          seconds_since s (base_ticks s)
          + seconds_since (restored_at u s later) u.counters.device_ticks)
unfolding i2c_restore_pcf i2c_save_pcf
restore_pcf-save_pcf u s later v =
    let x = seconds_since (restored_at u s later) u.counters.device_ticks in
    let mark = test_bits-written s.i2c.pcf_written in
    fields-base (restored_at u s later)
    ∙ rw mark (advance-with_fields s.i2c.pcf_regs (pcf_rtc_fields s) x)
    ∙ ap (λ f. pcf_rtc_advance_fields f x) (fields-base s)
    ∙ advance_fields-add (base_fields s) (seconds_since s (base_ticks s)) x v
