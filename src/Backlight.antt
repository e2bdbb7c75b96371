-- ===== src/Backlight.antt =====
-- src/dev_backlight.c: the pulse width modulator of the clicker and the display's light, the dimmer,
-- and what the front end shows of them.
mod Tests
use nano1g_unicorn_c.Base.{
  ℕ, ◌+◌, ◌-◌, ◌*◌, ◌/◌, ◌%◌, ◌^◌, Bool, true, false, not, ◌&&◌, ◌||◌, ltb, leb, ◌==◌,
  if◌then◌else◌, bit_and, bit_or, store,
}
use nano1g_unicorn_c.Word.{u64, clear_bits, test_bits, align4, read_part, merge_write}
use nano1g_unicorn_c.State.{State, Backlight}

-- The duty of a modulator's register, and whether it is on.
abbrev pub duty_of : ℕ → ℕ
duty_of reg = bit_and (reg / 2 ^ 16) 0xff

abbrev pub is_on : ℕ → Bool
is_on reg = test_bits reg 0x80000000 && not (duty_of reg == 0)

unfoldable pub pwm_read : Backlight → ℕ → ℕ → ℕ
pwm_read b offset size =
    if leb 0x40 (align4 offset) then 0 else read_part (b.pwm_regs (align4 offset / 4)) offset size

-- The clicker's register changed from `old_value` to `reg`, at the tick `now`.
unfoldable pub click : Backlight → ℕ → ℕ → ℕ → Backlight
click b now old_value reg =
    let some_sound = not (bit_and reg 0xffff == 0) || not (duty_of reg == 0) in
    let starts = not (is_on old_value) && is_on reg in
    let stops = is_on old_value && not (is_on reg) in
    record b {
      clicker_writes = u64 (b.clicker_writes + 1);
      clicker_period = if some_sound then bit_and reg 0xffff else b.clicker_period;
      clicker_duty = if some_sound then duty_of reg else b.clicker_duty;
      clicker_enabled = is_on reg;
      clicker_starts = if starts then u64 (b.clicker_starts + 1) else b.clicker_starts;
      clicker_start_tick = if starts then now else b.clicker_start_tick;
      clicker_stops = if stops then u64 (b.clicker_stops + 1) else b.clicker_stops;
      clicker_last_duration_ticks =
          if stops
          then u64 (now + (2 ^ 64 - b.clicker_start_tick))
          else b.clicker_last_duration_ticks;
    }

unfoldable pub pwm_write : Backlight → ℕ → ℕ → ℕ → ℕ → Backlight
unfolding click
pwm_write b now offset size value =
    let aligned = align4 offset in
    let old_value = b.pwm_regs (aligned / 4) in
    let reg = merge_write old_value offset size value in
    let written = record b { pwm_regs = store b.pwm_regs (aligned / 4) reg } in
    if leb 0x40 aligned
    then b
    else if aligned == 0x00
    then click written now old_value reg
    else if aligned == 0x10
    then record written {
      pwm_seen = true;
      generation = if old_value == reg then b.generation else u64 (b.generation + 1);
    }
    else written

-- A pulse of the dimmer: one of 127 is a step up, one of 1 a step down, on the channel 8.
unfoldable pub dimmer_start : Backlight → ℕ → Backlight
dimmer_start b config =
    let channel = bit_and config 0xff in
    let value_offset = 0x20 + 4 * (channel / 8) in
    let width = if ltb value_offset 0x100 then b.dimmer_regs (value_offset / 4) else 0 in
    let level = if b.dimmer_seen then b.nano_level else 16 in
    let up = (channel == 8) && (width == 127) in
    let down = (channel == 8) && (width == 1) in
    record b {
      dimmer_seen = true;
      dimmer_pulses = u64 (b.dimmer_pulses + 1);
      nano_level =
          if up
          then (if ltb level 32 then level + 1 else level)
          else if down
          then (if ltb 0 level then level - 1 else level)
          else level;
      dimmer_up_pulses = if up then u64 (b.dimmer_up_pulses + 1) else b.dimmer_up_pulses;
      dimmer_down_pulses = if down then u64 (b.dimmer_down_pulses + 1) else b.dimmer_down_pulses;
      dimmer_regs = store b.dimmer_regs 1 (bit_or (b.dimmer_regs 1) 0x80000000);
      dimmer_busy_reads = 1;
      generation = u64 (b.generation + 1);
    }

-- The busy bit shows once.
unfoldable pub dimmer_read : Backlight → ℕ → ℕ → ℕ × Backlight
dimmer_read b offset size =
    let aligned = align4 offset in
    let left = b.dimmer_busy_reads - 1 in
    let read = record b {
      dimmer_busy_reads = left;
      dimmer_regs =
          if left == 0
          then store b.dimmer_regs 1 (clear_bits (b.dimmer_regs 1) 0x80000000)
          else b.dimmer_regs;
    } in
    if leb 0x100 aligned then (0, b) else (
      read_part (b.dimmer_regs (aligned / 4)) offset size,
      if (aligned == 0x04) && not (b.dimmer_busy_reads == 0) then read else b,
    )

unfoldable pub dimmer_write : Backlight → ℕ → ℕ → ℕ → Backlight
unfolding dimmer_start
dimmer_write b offset size value =
    let aligned = align4 offset in
    let old_value = b.dimmer_regs (aligned / 4) in
    let reg = merge_write old_value offset size value in
    let written = record b { dimmer_regs = store b.dimmer_regs (aligned / 4) reg } in
    if leb 0x100 aligned
    then b
    else if aligned == 0x04
    then record b {
      dimmer_regs = store b.dimmer_regs 1 (clear_bits (b.dimmer_regs 1) 0x80000000);
      dimmer_busy_reads = 0;
    }
    else if (aligned == 0x00) && not (test_bits old_value 0x40000000) && test_bits reg 0x40000000
    then dimmer_start written reg
    else written

-- The port pin that powers the light, of the port registers after the write.
unfoldable pub backlight_gpio_write : State → ℕ → ℕ → State
backlight_gpio_write s gpio_offset write_mask =
    let b = s.backlight in
    let powered = test_bits (s.gpio (0x12c / 4)) 0x80 in
    let changed =
      not b.nano_power_seen || (if powered then not b.nano_powered else b.nano_powered) in
    if not (gpio_offset == 0x12c) || not (test_bits write_mask 0x80) then s else record s {
      backlight = record b {
        generation = if changed then u64 (b.generation + 1) else b.generation;
        nano_power_seen = true;
        nano_powered = powered;
      };
    }

-- The texts of n1g_dev_backlight_mode.
pub data LightMode : Type 0 where
  mode_nano mode_pwm mode_default : LightMode

unfoldable pub backlight_mode : State → LightMode
backlight_mode s =
    let b = s.backlight in
    if b.dimmer_seen || b.nano_power_seen
    then mode_nano
    else if b.pwm_seen
    then mode_pwm
    else mode_default

unfoldable pub backlight_powered : State → Bool
backlight_powered s =
    let b = s.backlight in
    if s.i2c.pcf_standby
    then false
    else if b.dimmer_seen || b.nano_power_seen
    then b.nano_power_seen && b.nano_powered
    else if b.pwm_seen
    then is_on (b.pwm_regs 4)
    else true

unfoldable pub backlight_level : State → ℕ
backlight_level s =
    let b = s.backlight in
    let duty = duty_of (b.pwm_regs 4) in
    if b.dimmer_seen
    then b.nano_level
    else if b.pwm_seen
    then (if leb duty 32 then duty else (duty * 32 + 127) / 255)
    else 32

unfoldable pub backlight_intensity : State → ℕ
unfolding backlight_powered backlight_level
backlight_intensity s =
    let shown = backlight_level s in
    let level = if ltb 32 shown then 32 else shown in
    if not (backlight_powered s) then 0 else if level == 0 then 0 else 48 + level * 207 / 32
