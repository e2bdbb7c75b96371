-- ===== src/PcfState/RoundTrip.antt =====
-- A power chip that is saved to a file and loaded from it.
use nano1g_unicorn_c.Base.{
  ℕ, zero, suc, ◌+◌, ◌-◌, ◌*◌, ◌%◌, ◌^◌, ◌≤◌, ◌<◌, ◌≡◌, ◌⊎◌, inl, ◌∙◌, refl, ap, ap₂, arith, Bool,
  true, false, not, ltb, leb, ◌==◌, if◌then◌else◌, bit_or, some, Array, copy_bytes,
}
use nano1g_unicorn_c.Word.{u8, u64, shr32, glue, bit_or-le-ones, le-ones, suc-ones}
use nano1g_unicorn_c.State.{State}
use nano1g_unicorn_c.Ram.{store_le}
use nano1g_unicorn_c.Ram.RoundTrip.{store_le_outside, store_le_inside}
use nano1g_unicorn_c.PcfState.{
  put_u64le, get_le, pcf_state_size, magic, has_magic, pcf_state_bytes, opened, stored_backup,
  load_pcf_state,
}
use nano1g_unicorn_c.I2c.Rtc.{i2c_save_pcf, i2c_restore_pcf, i2c_advance_rtc, rtc_written_mask}

-- The loop of get_u64le over bytes that are those of v.
get_le-bytes :
    (m : Array ℕ) (off v n : ℕ)
    → n ≤ 8
    → ((k : ℕ) → k < n → m (off + k) ≡ u8 (shr32 v (8 * k)))
    → get_le m off n ≡ v % 2 ^ (8 * n)
unfolding get_le
get_le-bytes m off v zero h b = omega arith
get_le-bytes m off v (suc i) h b =
    ap₂ bit_or (get_le-bytes m off v i (omega arith) (λ k lt. b k (omega arith)))
      (ap (λ t. u64 (t * 2 ^ (8 * i))) (b i (omega arith)))
    ∙ glue 64 v (8 * i) (omega arith)
    ∙ ap (λ t. v % 2 ^ t) (omega arith)

put_u64le_inside :
    (m : Array ℕ) (off value k : ℕ)
    → k < 8
    → put_u64le m off value (off + k) ≡ u8 (shr32 value (8 * k))
unfolding put_u64le
put_u64le_inside m off value k h = store_le_inside m off 8 value k h

put_u64le_outside :
    (m : Array ℕ) (off value j : ℕ) → (j < off) ⊎ (off + 8 ≤ j) → put_u64le m off value j ≡ m j
unfolding put_u64le
put_u64le_outside m off value j h = store_le_outside m off 8 value j h

-- The parts of the file.
module _ (s : State) (now : ℕ) where
  abbrev file : Array ℕ
  file = pcf_state_bytes s now

  pub file-regs : (j : ℕ) → j < 0x40 → file (25 + j) ≡ (i2c_save_pcf s).regs j
  unfolding pcf_state_bytes
  file-regs j h = ground (arith, ap (i2c_save_pcf s).regs (at j))
    where
      at : (j : ℕ) → 0 + (25 + j - 25) ≡ j
      at j = omega arith

  file-alarm : file 24 ≡ (if (i2c_save_pcf s).alarm_match_active then 1 else 0)
  unfolding pcf_state_bytes
  file-alarm = refl

  abbrev head : Array ℕ
  head = put_u64le (copy_bytes (λ _. 0) 0 magic 0 8) 8 now

  file-below : (j : ℕ) → j < 24 → file j ≡ put_u64le head 16 (i2c_save_pcf s).written j
  unfolding pcf_state_bytes
  file-below j h =
      let not_reg : leb 25 j ≡ false = ground arith in
      let not_alarm : (j == 24) ≡ false = ground arith in rw (not_reg, not_alarm) refl

  file-written : (k : ℕ) → k < 8 → file (16 + k) ≡ u8 (shr32 (i2c_save_pcf s).written (8 * k))
  file-written k h =
      file-below (16 + k) (omega arith) ∙ put_u64le_inside head 16 (i2c_save_pcf s).written k h

  file-saved : (k : ℕ) → k < 8 → file (8 + k) ≡ u8 (shr32 now (8 * k))
  file-saved k h =
      file-below (8 + k) (omega arith)
      ∙ put_u64le_outside head 16 (i2c_save_pcf s).written (8 + k) (inl (omega arith))
      ∙ put_u64le_inside (copy_bytes (λ _. 0) 0 magic 0 8) 8 now k h

  file-has_magic : has_magic file ≡ true
  unfolding pcf_state_bytes put_u64le store_le
  file-has_magic = refl

  -- The file is read as it was written.
  pub saved-now : now < 2 ^ 64 → get_le file 8 8 ≡ now
  saved-now h = omega (arith, get_le-bytes file 8 now 8 (omega arith) file-saved)

  written-lt : s.i2c.pcf_written < 2 ^ 64 → (i2c_save_pcf s).written < 2 ^ 64
  unfolding i2c_save_pcf
  written-lt h = omega (
    arith,
    suc-ones 64,
    bit_or-le-ones 64 s.i2c.pcf_written rtc_written_mask (le-ones 64 s.i2c.pcf_written h)
        (le-ones 64 rtc_written_mask (omega arith)),
  )

  pub written-back : s.i2c.pcf_written < 2 ^ 64 → get_le file 16 8 ≡ (i2c_save_pcf s).written
  written-back h = omega (
    arith,
    get_le-bytes file 16 (i2c_save_pcf s).written 8 (omega arith) file-written,
    written-lt h,
  )

  alarm-back : not (file 24 == 0) ≡ (i2c_save_pcf s).alarm_match_active
  alarm-back = rw file-alarm (alarm_bit (i2c_save_pcf s).alarm_match_active)
    where
      alarm_bit : (b : Bool) → not ((if b then 1 else 0) == 0) ≡ b
      alarm_bit true = refl
      alarm_bit false = refl

  -- A file of its size is taken.
  pub load_saved :
      (u : State) (later : ℕ)
      → load_pcf_state u (opened (record { bytes = file; size = pcf_state_size })) later ≡ (
        i2c_advance_rtc
            (i2c_restore_pcf u (some (stored_backup file)))
            (if ltb (get_le file 8 8) later then later - get_le file 8 8 else 0),
        true,
      )
  unfolding load_pcf_state
  load_saved u later = rw file-has_magic refl
