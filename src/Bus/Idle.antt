-- ===== src/Bus/Idle.antt =====
-- Idle time: how far the machine may be advanced at once while both cores are halted.
use nano1g_unicorn_c.Base.{
  ℕ, ◌+◌, ◌-◌, ◌*◌, ◌/◌, ◌^◌, Bool, not, ◌&&◌, ◌||◌, ltb, leb, ◌==◌, if◌then◌else◌,
}
use nano1g_unicorn_c.Word.{u32, u64, test_bits}
use nano1g_unicorn_c.State.{State}
use nano1g_unicorn_c.Intc.{Engine, intc_tick}
use nano1g_unicorn_c.I2c.Battery.{i2c_idle_quiescent}
use nano1g_unicorn_c.I2c.Tick.{i2c_tick}
use nano1g_unicorn_c.Bus.Access.{bus_tick}

abbrev pub no_channel : State → ℕ → Bool
no_channel s channel = not (s.dma.lcd_request_armed channel) && not (s.dma.ch channel).active

-- The tests of idle_devices_quiescent, in their groups.
unfoldable pub quiet_timers : State → Bool
quiet_timers s =
    not (test_bits s.timer.cfg.at0 0x80000000)
    && not (test_bits s.timer.cfg.at1 0x80000000)
    && (s.cpucon.wait_ticks.at0 == 0)
    && (s.cpucon.wait_ticks.at1 == 0)
    && (s.i2s.config == 0)
    && (s.opto.pending_release_bits == 0)
    && (s.opto.queue_len == 0)
    && (s.i2c.pcf_wake_requests == 0)

unfoldable pub quiet_interrupts : State → Bool
quiet_interrupts s =
    (s.intc.cpu_status == 0)
    && (s.intc.cop_status == 0)
    && (s.intc.forced_status == 0)
    && (s.intc.hi_cpu_status == 0)
    && (s.intc.hi_cop_status == 0)
    && (s.intc.hi_forced_status == 0)

unfoldable pub quiet_disk : State → Bool
quiet_disk s =
    not s.disk.dma_pending
    && not s.disk.pio_data_pending
    && not s.disk.pio_completion_pending
    && not s.disk.nondata_pending
    && not s.disk.soft_reset_pending

unfoldable pub idle_devices_quiescent : State → Bool
unfolding quiet_timers quiet_interrupts quiet_disk
idle_devices_quiescent s =
    quiet_timers s
    && quiet_interrupts s
    && quiet_disk s
    && (no_channel s 0 && no_channel s 1 && no_channel s 2 && no_channel s 3)
    && (not s.serial.at0.thre_irq_pending && not s.serial.at1.thre_irq_pending)
    && i2c_idle_quiescent s

unfoldable pub ticks_until : ℕ → ℕ → ℕ
ticks_until now deadline = if ltb now deadline then deadline - now else 1

-- A round of the loop over the deadlines.
unfoldable pub limit_by : ℕ → ℕ → ℕ → ℕ
unfolding ticks_until
limit_by now deadline limit =
    if deadline == 0
    then limit
    else if ltb (ticks_until now deadline) limit
    then ticks_until now deadline
    else limit

-- The ticks to the clock's next second. The sums and products are of 64 bits.
unfoldable pub until_second : State → ℕ
until_second s =
    let usec = s.opts.rtc_usec_per_tick in
    let target = u64 (u64 (s.i2c.rtc_last_second + 1) * 1000000) in
    let elapsed = u64 (u64 (s.counters.device_ticks + (2 ^ 64 - s.i2c.rtc_base_ticks)) * usec) in
    if ltb elapsed target then u64 (target - elapsed + usec - 1) / usec else 1

unfoldable pub idle_advance_limit : State → ℕ
unfolding idle_devices_quiescent limit_by until_second
idle_advance_limit s =
    let now = s.counters.device_ticks in
    let deadlines = limit_by now s.i2c.pcf_low_battery_standby_deadline (
      limit_by now s.i2c.pcf_low_battery_deadline
        (limit_by now s.i2c.pcf_adc_deadline (limit_by now s.i2c.pcf_standby_deadline 65536))) in
    let limit =
      if not (s.opts.rtc_usec_per_tick == 0) && ltb (until_second s) deadlines
      then until_second s
      else deadlines in
    if not s.cpu.at0.halted || not s.cpu.at1.halted || not (idle_devices_quiescent s)
    then 1
    else if limit == 0
    then 1
    else limit

-- n1g_bus_advance: several idle ticks at once.
unfoldable pub skip_ticks : State → ℕ → State
skip_ticks s ticks = record s {
  counters = record s.counters { device_ticks = u64 (s.counters.device_ticks + ticks) };
  timer = record s.timer {
    usec = u32 (s.timer.usec + u32 (u64 (ticks * s.opts.rtc_usec_per_tick)));
  };
}

unfoldable pub bus_advance : {E : Type 0} → Engine E → State → E → ℕ → State × E
unfolding skip_ticks
bus_advance engine s e ticks =
    let (t, f) = intc_tick engine (i2c_tick (skip_ticks s ticks)) e in
    if leb ticks 1 then bus_tick engine s e else (
      record t {
        counters = record t.counters {
          fast_forwarded_ticks = u64 (t.counters.fast_forwarded_ticks + (ticks - 1));
        };
      },
      f,
    )
