-- ===== src/I2c/Tick.antt =====
-- n1g_dev_i2c_tick, a function for each of its paragraphs.
use nano1g_unicorn_c.Base.{
  ℕ, zero, suc, ◌+◌, ◌*◌, ◌/◌, Bool, true, false, not, ◌&&◌, ltb, leb, ◌==◌, if◌then◌else◌, bit_and,
  bit_or, Array, store,
}
use nano1g_unicorn_c.Word.{u64, test_bits}
use nano1g_unicorn_c.State.{State, I2c, wake_rtc_alarm}
use nano1g_unicorn_c.I2c.Battery.{
  has_written, i2c_battery_mv, pcf_bvm_control, pcf_bvm_threshold_mv, pcf_complete_adc,
}
use nano1g_unicorn_c.I2c.Rtc.{pcf_rtc_fields, seconds_since}
use nano1g_unicorn_c.I2c.Standby.{pcf_enter_standby, pcf_oocc1, pcf_ticks_for_usec, pcf_wake}
use nano1g_unicorn_c.I2c.Pcf.{pcf_alarm_reset}

-- A deadline of 0 is none.
abbrev pub is_due : State → ℕ → Bool
is_due s deadline = not (deadline == 0) && leb deadline s.counters.device_ticks

unfoldable pub tick_standby : State → State
tick_standby s =
    if not s.i2c.pcf_standby && is_due s s.i2c.pcf_standby_deadline then pcf_enter_standby s else s

unfoldable pub tick_adc : State → State
tick_adc s = if is_due s s.i2c.pcf_adc_deadline then record s { i2c = pcf_complete_adc s } else s

-- The battery is low from the debounce after it fell below the threshold.
unfoldable pub battery_falls : State → I2c
battery_falls s =
    let c = s.i2c in
    let now = s.counters.device_ticks in
    let debounce = if test_bits (pcf_bvm_control c) 0x10 then 1 else pcf_ticks_for_usec s 62000 in
    if c.pcf_low_battery_deadline == 0
    then record c { pcf_low_battery_deadline = u64 (now + debounce) }
    else if leb c.pcf_low_battery_deadline now
    then record c {
      pcf_low_battery = true;
      pcf_low_battery_deadline = 0;
      pcf_low_battery_events = u64 (c.pcf_low_battery_events + 1);
      pcf_regs = store c.pcf_regs 0x04 (bit_or (c.pcf_regs 0x04) 0x40);
      pcf_low_battery_standby_deadline = u64 (now + pcf_ticks_for_usec s 8000000);
    }
    else c

unfoldable pub monitor_battery : State → I2c
unfolding battery_falls
monitor_battery s =
    let c = s.i2c in
    let battery = i2c_battery_mv s in
    let threshold = pcf_bvm_threshold_mv c in
    let below = ltb battery threshold in
    if not c.pcf_low_battery && below
    then battery_falls s
    else if c.pcf_low_battery && leb (threshold + threshold * 4 / 100) battery
    then record c {
      pcf_low_battery = false;
      pcf_low_battery_deadline = 0;
      pcf_low_battery_standby_deadline = 0;
    }
    else if not below
    then record c { pcf_low_battery_deadline = 0 }
    else c

unfoldable pub tick_battery : State → State
unfolding monitor_battery
tick_battery s = record s { i2c = monitor_battery s }

unfoldable pub tick_low_standby : State → State
tick_low_standby s =
    if not s.i2c.pcf_standby && is_due s s.i2c.pcf_low_battery_standby_deadline
    then pcf_enter_standby
        (record s { i2c = record s.i2c { pcf_low_battery_standby_deadline = 0 } })
    else s

-- A field of the alarm, the loop over the fields up to `n`: whether any is set, whether all that are
-- set match.
unfoldable pub alarm_field : I2c → ℕ → ℕ
alarm_field c i =
    bit_and (if has_written c (0x11 + i) then c.pcf_regs (0x11 + i) else pcf_alarm_reset i)
      (pcf_alarm_reset i)

unfoldable pub match_alarm : I2c → Array ℕ → ℕ → Bool × Bool
unfolding alarm_field
match_alarm c current zero = (false, true)
match_alarm c current (suc i) =
    let (any_enabled, all_match) = match_alarm c current i in
    let alarm = alarm_field c i in
    if alarm == pcf_alarm_reset i
    then (any_enabled, all_match)
    else (true, all_match && (alarm == bit_and (current i) (pcf_alarm_reset i)))

-- The alarm that begins to match.
unfoldable pub raise_alarm : I2c → I2c
raise_alarm c =
    let raised = record c {
      pcf_regs = store c.pcf_regs 0x02 (bit_or (c.pcf_regs 0x02) 0x80);
      rtc_alarm_interrupts = u64 (c.rtc_alarm_interrupts + 1);
    } in
    if test_bits (pcf_oocc1 raised) 0x10 && not (test_bits (raised.pcf_regs 0x05) 0x80)
    then pcf_wake raised wake_rtc_alarm
    else raised

-- The clock's second has changed.
unfoldable pub next_second : State → ℕ → I2c
unfolding match_alarm raise_alarm
next_second s elapsed =
    let c = record s.i2c {
      rtc_last_second = elapsed;
      pcf_regs = store s.i2c.pcf_regs 0x02 (bit_or (s.i2c.pcf_regs 0x02) 0x40);
      rtc_second_interrupts = u64 (s.i2c.rtc_second_interrupts + 1);
    } in
    let (any_enabled, all_match) = match_alarm c (pcf_rtc_fields (record s { i2c = c })) 7 in
    let matched = any_enabled && all_match in
    let d = if matched && not c.rtc_alarm_match_active then raise_alarm c else c in
    record d { rtc_alarm_match_active = matched }

unfoldable pub tick_rtc : State → State
unfolding next_second
tick_rtc s =
    let elapsed = seconds_since s s.i2c.rtc_base_ticks in
    if elapsed == s.i2c.rtc_last_second then s else record s { i2c = next_second s elapsed }

unfoldable pub i2c_tick : State → State
unfolding tick_standby tick_adc tick_battery tick_low_standby tick_rtc
i2c_tick s = tick_rtc (tick_low_standby (tick_battery (tick_adc (tick_standby s))))
