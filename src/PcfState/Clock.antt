-- ===== src/PcfState/Clock.antt =====
-- The clock of a power chip that is saved to a file and loaded from it, in another run.
use nano1g_unicorn_c.Base.{
  ℕ, ◌+◌, ◌-◌, ◌%◌, ◌^◌, ◌<◌, ◌≡◌, ◌⊎◌, ◌∙◌, refl, ap, arith, Bool, true, ltb, leb, if◌then◌else◌,
  some, Array, bit_or,
}
use nano1g_unicorn_c.Word.{test_bits}
use nano1g_unicorn_c.State.{State}
use nano1g_unicorn_c.I2c.Rtc.{
  i2c_save_pcf, i2c_restore_pcf, i2c_advance_rtc, pcf_rtc_fields, pcf_rtc_advance_fields,
  seconds_since, with_fields, from_fields, rtc_written_mask,
}
use nano1g_unicorn_c.I2c.Battery.{has_written}
use nano1g_unicorn_c.I2c.Dates.{HoldDate, advance_fields-add}
use nano1g_unicorn_c.I2c.Backup.{
  base_fields, base_ticks, test_bits-written, fields-base, advance-with_fields,
}
use nano1g_unicorn_c.PcfState.{
  pcf_state_size, pcf_state_bytes, opened, stored_backup, load_pcf_state,
}
use nano1g_unicorn_c.PcfState.RoundTrip.{file-regs, saved-now, written-back, load_saved}

-- Only the seven fields of the date are read.
advance_fields-same :
    (f g : Array ℕ) (e : ℕ)
    → ((i : ℕ) → i < 7 → f i ≡ g i)
    → pcf_rtc_advance_fields f e ≡ pcf_rtc_advance_fields g e
unfolding pcf_rtc_advance_fields from_fields
advance_fields-same f g e same =
    rw
      (
        same 0 (omega arith),
        same 1 (omega arith),
        same 2 (omega arith),
        same 3 (omega arith),
        same 4 (omega arith),
        same 5 (omega arith),
        same 6 (omega arith),
      )
      refl

-- No time has passed since the present.
seconds_since_now :
    (s : State) → s.counters.device_ticks < 2 ^ 64 → seconds_since s s.counters.device_ticks ≡ 0
unfolding seconds_since
seconds_since_now s h =
    let none_passed : (s.counters.device_ticks + (2 ^ 64 - s.counters.device_ticks)) % 2 ^ 64 ≡ 0 =
      omega arith in
    rw none_passed (omega arith)

-- A clock that was set at this tick shows what it was set to.
fields_set :
    (s : State)
    → s.counters.device_ticks < 2 ^ 64
    → has_written s.i2c 0x0a ≡ true
    → s.i2c.rtc_base_ticks ≡ s.counters.device_ticks
    → pcf_rtc_fields s ≡ pcf_rtc_advance_fields (λ i. s.i2c.pcf_regs (0x0a + i)) 0
unfolding pcf_rtc_fields
fields_set s h w b = rw w (
    ap (pcf_rtc_advance_fields (λ i. s.i2c.pcf_regs (0x0a + i)))
      (ap (seconds_since s) b ∙ seconds_since_now s h))

stored-regs :
    (s : State) (now j : ℕ)
    → j < 0x40
    → (stored_backup (pcf_state_bytes s now)).regs j ≡ (i2c_save_pcf s).regs j
unfolding stored_backup
stored-regs s now j h =
    let here : ltb j 0x40 ≡ true = ground arith in
    let at : 25 + (j - 0) ≡ 25 + j = omega arith in
    let low : leb 0 j ≡ true = ground arith in rw (low, here, at) (file-regs s now j h)

saved-date : (s : State) (i : ℕ) → i < 7 → (i2c_save_pcf s).regs (0x0a + i) ≡ pcf_rtc_fields s i
unfolding i2c_save_pcf with_fields
saved-date s i h =
    let from : leb 0x0a (0x0a + i) ≡ true = ground arith in
    let to : leb (0x0a + i) 0x10 ≡ true = ground arith in
    let at : 0x0a + i - 0x0a ≡ i = omega arith in rw (from, to, at) refl

with_fields_outside :
    (regs fields : Array ℕ) (j : ℕ) → (j < 0x0a) ⊎ (0x10 < j) → with_fields regs fields j ≡ regs j
unfolding with_fields
with_fields_outside regs fields j h = ground arith

saved-other :
    (s : State) (j : ℕ) → (j < 0x0a) ⊎ (0x10 < j) → (i2c_save_pcf s).regs j ≡ s.i2c.pcf_regs j
unfolding i2c_save_pcf
saved-other s j h = with_fields_outside s.i2c.pcf_regs (pcf_rtc_fields s) j h

saved-written : (s : State) → (i2c_save_pcf s).written ≡ bit_or s.i2c.pcf_written rtc_written_mask
unfolding i2c_save_pcf
saved-written s = refl

module _ (s u : State) (now : ℕ) (small : u.counters.device_ticks < 2 ^ 64)
    (marks : s.i2c.pcf_written < 2 ^ 64) where
  abbrev restored : State
  restored = i2c_restore_pcf u (some (stored_backup (pcf_state_bytes s now)))

  marked : test_bits (stored_backup (pcf_state_bytes s now)).written (2 ^ 0x0a) ≡ true
  unfolding stored_backup
  marked =
      ap (λ w. test_bits w (2 ^ 0x0a)) (written-back s now marks ∙ saved-written s)
      ∙ test_bits-written s.i2c.pcf_written

  restored-fields : pcf_rtc_fields restored ≡ pcf_rtc_advance_fields (pcf_rtc_fields s) 0
  unfolding i2c_restore_pcf stored_backup
  restored-fields =
      fields_set restored small marked refl
      ∙ advance_fields-same (λ i. (stored_backup (pcf_state_bytes s now)).regs (0x0a + i))
          (pcf_rtc_fields s) 0
          (λ i h. stored-regs s now (0x0a + i) (omega arith) ∙ saved-date s i h)

  advanced-fields :
      (e : ℕ)
      → pcf_rtc_fields (i2c_advance_rtc restored e)
        ≡ pcf_rtc_advance_fields (pcf_rtc_advance_fields (pcf_rtc_fields restored) e) 0
  unfolding i2c_restore_pcf stored_backup i2c_advance_rtc
  advanced-fields e =
      fields_set (i2c_advance_rtc restored e) small (test_bits-written restored.i2c.pcf_written)
        refl
      ∙ advance-with_fields restored.i2c.pcf_regs
          (pcf_rtc_advance_fields (pcf_rtc_fields restored) e) 0

  abbrev loaded : ℕ → State × Bool
  loaded later =
      load_pcf_state u (opened (record { bytes = pcf_state_bytes s now; size = pcf_state_size }))
        later

  loaded_lem :
      (later : ℕ) → now < 2 ^ 64 → loaded later ≡ (i2c_advance_rtc restored (later - now), true)
  loaded_lem later h =
      load_saved s now u later
      ∙ ap (λ e. (i2c_advance_rtc restored e, true))
          (ap (λ t. if ltb t later then later - t else 0) (saved-now s now h) ∙ ground arith)

  advanced-other :
      (e j : ℕ)
      → j < 0x40
      → (j < 0x0a) ⊎ (0x10 < j)
      → (i2c_advance_rtc restored e).i2c.pcf_regs j ≡ s.i2c.pcf_regs j
  unfolding i2c_restore_pcf stored_backup i2c_advance_rtc
  advanced-other e j h out =
      with_fields_outside restored.i2c.pcf_regs (pcf_rtc_advance_fields (pcf_rtc_fields restored) e)
        j out
      ∙ stored-regs s now j h
      ∙ saved-other s j out

  loaded-fields :
      (e : ℕ)
      → HoldDate (base_fields s)
      → pcf_rtc_fields (i2c_advance_rtc restored e)
        ≡ pcf_rtc_advance_fields (base_fields s) (seconds_since s (base_ticks s) + e)
  loaded-fields e v =
      let x = seconds_since s (base_ticks s) in
      let start : pcf_rtc_fields restored ≡ pcf_rtc_advance_fields (base_fields s) (x + 0) =
        restored-fields
        ∙ ap (λ f. pcf_rtc_advance_fields f 0) (fields-base s)
        ∙ advance_fields-add (base_fields s) x 0 v in
      advanced-fields e
      ∙ ap (λ f. pcf_rtc_advance_fields (pcf_rtc_advance_fields f e) 0) start
      ∙ ap (λ f. pcf_rtc_advance_fields f 0) (advance_fields-add (base_fields s) (x + 0) e v)
      ∙ advance_fields-add (base_fields s) (x + 0 + e) 0 v
      ∙ ap (pcf_rtc_advance_fields (base_fields s)) (omega arith)

-- A chip whose clock counts from a valid date is saved to a file at a time of the wall clock, and the
-- file is loaded into any machine at another. Then the load succeeds; the clock shows the date that
-- it had when it was saved, advanced by the seconds between the two times; and each register of the
-- chip outside the date is as it was. The wall clock, the ticks and the marks are 64-bit numbers.
pub load_pcf-save_pcf :
    (s u : State) (now later j : ℕ)
    → u.counters.device_ticks < 2 ^ 64
    → s.i2c.pcf_written < 2 ^ 64
    → now < 2 ^ 64
    → HoldDate (base_fields s)
    → j < 0x40
    → (j < 0x0a) ⊎ (0x10 < j)
    → ((load_pcf_state u (opened (record { bytes = pcf_state_bytes s now; size = 89 })) later).1
        ≡ true)
      × (pcf_rtc_fields
            (load_pcf_state u
              (opened (record { bytes = pcf_state_bytes s now; size = 89 }))
              later).0
          ≡ pcf_rtc_advance_fields (base_fields s) (seconds_since s (base_ticks s) + (later - now)))
      × ((load_pcf_state u
              (opened (record { bytes = pcf_state_bytes s now; size = 89 }))
              later).0.i2c.pcf_regs
            j
          ≡ s.i2c.pcf_regs j)
load_pcf-save_pcf s u now later j small marks h v inside out =
    rw (loaded_lem s u now small marks later h) (
      refl,
      loaded-fields s u now small marks (later - now) v,
      advanced-other s u now small marks (later - now) j inside out,
    )
