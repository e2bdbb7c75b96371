-- ===== src/I2c/Battery.antt =====
-- The battery: its voltage, its monitor and the analog to digital converter.
use nano1g_unicorn_c.Base.{
  ℕ, ◌+◌, ◌-◌, ◌*◌, ◌/◌, ◌%◌, ◌^◌, Bool, true, false, not, ◌&&◌, ◌||◌, ltb, leb, ◌==◌,
  if◌then◌else◌, bit_and, bit_or, store,
}
use nano1g_unicorn_c.Word.{u64, test_bits}
use nano1g_unicorn_c.State.{State, I2c}

-- Whether the guest has written a register of the power chip.
abbrev pub has_written : I2c → ℕ → Bool
has_written c reg = test_bits c.pcf_written (2 ^ reg)

-- table_mv of battery_percent_to_mv: the millivolts at 0%, 10%, … 100%.
unfoldable pub table_mv : ℕ → ℕ
table_mv idx =
    if idx == 0
    then 3230
    else if idx == 1
    then 3620
    else if idx == 2
    then 3700
    else if idx == 3
    then 3730
    else if idx == 4
    then 3750
    else if idx == 5
    then 3780
    else if idx == 6
    then 3830
    else if idx == 7
    then 3890
    else if idx == 8
    then 3950
    else if idx == 9
    then 4030
    else 4160

-- The table never falls, so `hi - lo` does not wrap.
unfoldable pub battery_percent_to_mv : ℕ → ℕ
unfolding table_mv
battery_percent_to_mv percent =
    let p = if ltb 100 percent then 100 else percent in
    let idx = p / 10 in
    let lo = table_mv idx in
    let hi = table_mv (if ltb idx 10 then idx + 1 else 10) in lo + (hi - lo) * (p % 10) / 10

unfoldable pub i2c_battery_mv : State → ℕ
unfolding battery_percent_to_mv
i2c_battery_mv s = battery_percent_to_mv s.opts.battery_percent

unfoldable pub battery_percent_to_adc_raw : ℕ → ℕ
unfolding battery_percent_to_mv
battery_percent_to_adc_raw percent = (battery_percent_to_mv percent * 1024 + 3000) / 6000

unfoldable pub pcf_bvm_control : I2c → ℕ
pcf_bvm_control c = if has_written c 0x34 then bit_and (c.pcf_regs 0x34) 0x1e else 0x0c

unfoldable pub pcf_bvm_threshold_mv : I2c → ℕ
unfolding pcf_bvm_control
pcf_bvm_threshold_mv c =
    let code = bit_and (pcf_bvm_control c) 0x0e / 2 in if code == 0 then 2700 else 2700 + code * 100

unfoldable pub i2c_idle_quiescent : State → Bool
unfolding i2c_battery_mv pcf_bvm_threshold_mv
i2c_idle_quiescent s =
    let c = s.i2c in
    let battery = i2c_battery_mv s in
    let threshold = pcf_bvm_threshold_mv c in
    let below = ltb battery threshold in
    if not c.pcf_low_battery && below && (c.pcf_low_battery_deadline == 0)
    then false
    else if c.pcf_low_battery && leb (threshold + threshold * 4 / 100) battery
    then false
    else if not below && not (c.pcf_low_battery_deadline == 0)
    then false
    else true

unfoldable pub pcf_adc_input : State → ℕ → ℕ
unfolding i2c_battery_mv battery_percent_to_adc_raw
pcf_adc_input s mux =
    let mv = i2c_battery_mv s in
    let raw =
      if (mux == 0) || (mux == 2)
      then battery_percent_to_adc_raw s.opts.battery_percent
      else if (mux == 1) || (mux == 3) || (mux == 12)
      then (if ltb 3000 mv then ((mv - 3000) * 1024 + 1200) / 2400 else 0)
      else if mux == 4
      then 512
      else 0 in
    if ltb raw 1024 then raw else 1023

-- The results, cut to eight bits where the guest asked for it.
unfoldable pub pcf_complete_adc : State → I2c
unfolding pcf_adc_input
pcf_complete_adc s =
    let c = s.i2c in
    let control = c.pcf_regs 0x2f in
    let mux = bit_and (control / 2) 0x0f in
    let first = pcf_adc_input s mux in
    let second = if mux == 12 then pcf_adc_input s 3 else 0 in
    let short = test_bits control 0x80 in
    record c {
      pcf_adc_result1 = if short then bit_and first 0x03fc else first;
      pcf_adc_result2 = if short then bit_and second 0x03fc else second;
      pcf_adc_ready = true;
      pcf_adc_deadline = 0;
      pcf_adc_conversions = u64 (c.pcf_adc_conversions + 1);
      pcf_regs = store c.pcf_regs 0x04 (bit_or (c.pcf_regs 0x04) 0x01);
    }
