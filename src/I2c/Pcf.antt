-- ===== src/I2c/Pcf.antt =====
-- The registers of the power chip, as its bus accesses see them.
use nano1g_unicorn_c.Base.{
  ℕ, ◌+◌, ◌-◌, ◌*◌, ◌/◌, ◌^◌, Bool, true, false, not, ◌&&◌, ◌||◌, ltb, leb, ◌==◌, if◌then◌else◌,
  bit_and, bit_or, store,
}
use nano1g_unicorn_c.Word.{u8, u64, test_bits}
use nano1g_unicorn_c.State.{State, I2c}
use nano1g_unicorn_c.I2c.Battery.{has_written, pcf_bvm_control}
use nano1g_unicorn_c.I2c.Rtc.{pcf_rtc_fields}
use nano1g_unicorn_c.I2c.Standby.{pcf_ticks_for_usec}

-- INT1 to INT3, which a read clears, and the registers of the date and of the alarm.
abbrev pub is_interrupt : ℕ → Bool
is_interrupt reg = leb 0x02 reg && leb reg 0x04

abbrev pub is_date : ℕ → Bool
is_date reg = leb 0x0a reg && leb reg 0x10

abbrev pub is_alarm : ℕ → Bool
is_alarm reg = leb 0x11 reg && leb reg 0x17

-- pcf_alarm_reset, and pcf_alarm_mask of the same values.
unfoldable pub pcf_alarm_reset : ℕ → ℕ
pcf_alarm_reset i =
    if (i == 0) || (i == 1)
    then 0x7f
    else if (i == 2) || (i == 4)
    then 0x3f
    else if i == 3
    then 0x07
    else if i == 5
    then 0x1f
    else 0xff

-- Register 1, the chip's state.
unfoldable pub oocs_value : State → ℕ
oocs_value s =
    let fixed = bit_or (bit_and (s.i2c.pcf_regs 0x01) 0x84) 0x50 in
    let battery = if s.i2c.pcf_low_battery then fixed else bit_or fixed 0x08 in
    if s.opts.main_charger_connected || s.opts.usb_charger_connected
    then bit_or battery 0x20
    else battery

-- What a read of a register gives.
unfoldable pub pcf_value : State → ℕ → ℕ
unfolding oocs_value pcf_alarm_reset
pcf_value s reg =
    let c = s.i2c in
    if is_date reg
    then pcf_rtc_fields s (reg - 0x0a)
    else if is_interrupt reg
    then c.pcf_regs reg
    else if reg == 0x01
    then oocs_value s
    else if (reg == 0x08) && not (has_written c 0x08)
    then 0x60
    else if reg == 0x34
    then bit_or (pcf_bvm_control c) (if c.pcf_low_battery then 0x01 else 0)
    else if reg == 0x30
    then u8 (c.pcf_adc_result1 / 2 ^ 2)
    else if reg == 0x31
    then u8 (
        bit_or
          (bit_or (if c.pcf_adc_ready then 0x80 else 0) (bit_and c.pcf_adc_result2 0x03 * 2 ^ 2))
          (bit_and c.pcf_adc_result1 0x03))
    else if reg == 0x32
    then u8 (c.pcf_adc_result2 / 2 ^ 2)
    else if ltb reg 0x40 && has_written c reg
    then c.pcf_regs reg
    else if is_alarm reg
    then pcf_alarm_reset (reg - 0x11)
    else if reg == 0x00
    then 0
    else if reg == 0x38
    then 0x04
    else if ltb reg 0x40
    then c.pcf_regs reg
    else 0

-- pcf_read: the register that the pointer is at, which moves on.
unfoldable pub pcf_read : State → ℕ × State
unfolding pcf_value
pcf_read s =
    let c = s.i2c in
    let reg = if c.pcf_reg_set then c.pcf_reg else 0 in
    (
      pcf_value s reg,
      record s {
        i2c = record c {
          pcf_reg = if c.pcf_reg_set then u8 (c.pcf_reg + 1) else c.pcf_reg;
          pcf_reg_set = true;
          pcf_reg_reads =
              if ltb reg 0x40
              then store c.pcf_reg_reads reg (u64 (c.pcf_reg_reads reg + 1))
              else c.pcf_reg_reads;
          pcf_regs = if is_interrupt reg then store c.pcf_regs reg 0 else c.pcf_regs;
        };
      },
    )

-- The bits of a register that a write sets.
unfoldable pub stored_value : ℕ → ℕ → ℕ
stored_value reg value =
    if reg == 0x01 then bit_and value 0x04 else if reg == 0x34 then bit_and value 0x1e else value

-- GOSTDBY asks for standby in a millisecond.
unfoldable pub request_standby : State → I2c → I2c
request_standby s c = record c {
  pcf_standby_requests = u64 (c.pcf_standby_requests + 1);
  pcf_standby_deadline =
      if not c.pcf_standby && (c.pcf_standby_deadline == 0)
      then u64 (s.counters.device_ticks + pcf_ticks_for_usec s 1000)
      else c.pcf_standby_deadline;
}

-- A conversion that starts at once is ready in 25 microseconds.
unfoldable pub start_adc : State → ℕ → I2c → I2c
start_adc s value c = record c {
  pcf_regs = store c.pcf_regs 0x2f (bit_and (c.pcf_regs 0x2f) 0xfe);
  pcf_adc_ready = false;
  pcf_adc_deadline =
      if bit_and value 0x60 == 0
      then u64 (s.counters.device_ticks + pcf_ticks_for_usec s 25)
      else 0;
}

-- The write of a value to a register below 0x40 that is no interrupt register.
unfoldable pub set_register : State → ℕ → ℕ → I2c → I2c
unfolding stored_value request_standby start_adc
set_register s reg value c =
    let stored = record c {
      pcf_regs = store c.pcf_regs reg (stored_value reg value);
      pcf_written = bit_or c.pcf_written (2 ^ reg);
    } in
    let asked =
      if (reg == 0x08) && test_bits value 0x01 then request_standby s stored else stored in
    let started =
      if (reg == 0x2f) && test_bits value 0x01 then start_adc s value asked else asked in
    let dated =
      if is_date reg
      then record started { rtc_base_ticks = s.counters.device_ticks; rtc_last_second = 0 }
      else started in
    if is_alarm reg then record dated { rtc_alarm_match_active = false } else dated

-- pcf_write: the first byte of a transaction sets the pointer, the others are values.
unfoldable pub pcf_write : State → ℕ → Bool → I2c
unfolding set_register
pcf_write s value first_byte =
    let c = s.i2c in
    let reg = c.pcf_reg in
    let counted = record c {
      pcf_reg_writes = store c.pcf_reg_writes reg (u64 (c.pcf_reg_writes reg + 1));
    } in
    let written =
      if not (ltb reg 0x40)
      then c
      else if is_interrupt reg
      then counted
      else set_register s reg value counted in
    if first_byte
    then record c { pcf_reg = value; pcf_reg_set = true }
    else record written { pcf_reg = u8 (reg + 1) }
