-- ===== src/I2c/Standby.antt =====
-- Standby: how the power chip puts the machine to sleep and what wakes it.
use nano1g_unicorn_c.Base.{
  ℕ, ◌+◌, ◌-◌, ◌/◌, ◌^◌, Bool, true, false, not, ◌&&◌, ◌==◌, if◌then◌else◌, bit_and, bit_or, store,
  Duo,
}
use nano1g_unicorn_c.Word.{u64, test_bits}
use nano1g_unicorn_c.State.{State, I2c, Cpu, WakeReason, wake_charger, wake_onkey}
use nano1g_unicorn_c.I2c.Battery.{has_written}

unfoldable pub pcf_oocc1 : I2c → ℕ
pcf_oocc1 c = if has_written c 0x08 then c.pcf_regs 0x08 else 0x60

-- The cores stay halted: the boot code wakes them later.
unfoldable pub pcf_wake : I2c → WakeReason → I2c
pcf_wake c reason = if not c.pcf_standby then c else record c {
  pcf_standby = false;
  pcf_standby_deadline = 0;
  pcf_wake_requests = u64 (c.pcf_wake_requests + 1);
  pcf_last_wake = reason;
}

unfoldable pub pcf_ticks_for_usec : State → ℕ → ℕ
pcf_ticks_for_usec s usec =
    let per_tick = s.opts.rtc_usec_per_tick in
    let scale = if per_tick == 0 then 1 else per_tick in
    let ticks = u64 (usec + scale - 1) / scale in if ticks == 0 then 1 else ticks

-- The chip's own part of pcf_enter_standby, for a chip that is awake.
unfoldable pub fall_asleep : I2c → I2c
fall_asleep c = record c {
  pcf_standby = true;
  pcf_standby_deadline = 0;
  pcf_standby_transitions = u64 (c.pcf_standby_transitions + 1);
  pcf_regs = store (store (store c.pcf_regs 0x08 (bit_and (c.pcf_regs 0x08) 0xfe)) 0x2e 0) 0x2f 0;
  pcf_written = bit_and c.pcf_written (0xffffffffffffffff - (2 ^ 0x2e + 2 ^ 0x2f));
  pcf_adc_deadline = 0;
  pcf_adc_ready = false;
}

abbrev pub halt : Duo Cpu → Duo Cpu
halt cpu = record { at0 = record cpu.at0 { halted = true }; at1 = record cpu.at1 { halted = true } }

unfoldable pub pcf_enter_standby : State → State
unfolding fall_asleep
pcf_enter_standby s =
    if s.i2c.pcf_standby then s else record s { i2c = fall_asleep s.i2c; cpu = halt s.cpu }

-- n1g_dev_i2c_onkey and n1g_dev_i2c_charger_event.
unfoldable pub i2c_onkey : I2c → Bool → I2c
unfolding pcf_wake
i2c_onkey c pressed =
    if not pressed
    then c
    else pcf_wake (record c { pcf_regs = store c.pcf_regs 0x02 (bit_or (c.pcf_regs 0x02) 0x02) })
        wake_onkey

unfoldable pub i2c_charger_event : I2c → Bool → I2c
unfolding pcf_wake pcf_oocc1
i2c_charger_event c inserted =
    let noted = record c {
      pcf_regs = store c.pcf_regs 0x03 (bit_or (c.pcf_regs 0x03) (if inserted then 0x01 else 0x02));
    } in
    if inserted && test_bits (pcf_oocc1 noted) 0x20 && not (test_bits (noted.pcf_regs 0x06) 0x01)
    then pcf_wake noted wake_charger
    else noted
