-- ===== src/Bus/Tests.antt =====
-- The address map and idle time at concrete states.
use nano1g_unicorn_c.Base.{◌+◌, ◌-◌, ◌≡◌, true, none, refl, arith, cpu}
use nano1g_unicorn_c.State.{State}
use nano1g_unicorn_c.Word.{u64}
use nano1g_unicorn_c.Sample.{idle}
use nano1g_unicorn_c.Ram.{ram_read, ram_write, ram_ptr}
use nano1g_unicorn_c.Bus.Route.{timer, base_of, size_of, is_in}
use nano1g_unicorn_c.Bus.Access.{
  count_read, count_write, device_read, device_write, bus_read, bus_write_core,
}
use nano1g_unicorn_c.Bus.Windows.{bus_reaches_device}
use nano1g_unicorn_c.Sample.{asleep}
use nano1g_unicorn_c.Sample.File.{Table, file}
use nano1g_unicorn_c.Serial.{serial_iir}
use nano1g_unicorn_c.Dma.Channel.{ch_reg}
use nano1g_unicorn_c.I2c.Battery.{i2c_idle_quiescent}
use nano1g_unicorn_c.Bus.Idle.{idle_advance_limit, bus_advance}
use nano1g_unicorn_c.Bus.Settled.{IsSettled}
use nano1g_unicorn_c.Bus.Steps.{IsScaled}
use nano1g_unicorn_c.Bus.QuietTicks.{bus_ticks}
use nano1g_unicorn_c.Bus.FastForward.{tick_by_tick}
use nano1g_unicorn_c.Bus.Calm.{IsTimed, bus_advance-ticks}

abbrev blank : Table
blank core r = 0

in_timer : is_in timer 0x60005010 ≡ true
unfolding base_of size_of
in_timer = refl

no_ram_read : ram_read (count_read idle) 0x60005010 4 ≡ none
unfolding ram_read ram_ptr
no_ram_read = refl

no_ram_write : ram_write (count_write idle) 0x60005010 4 1 ≡ none
unfolding ram_write ram_ptr
no_ram_write = refl

bus_reaches_device_example :
    (bus_read idle cpu 0x60005010 4
      ≡ device_read timer (count_read idle) cpu (0x60005010 - base_of timer) 4)
    × (bus_write_core (λ s. s) idle 0 cpu 0x60005010 4 1
        ≡ device_write (λ s. s) timer (count_write idle) 0 cpu (0x60005010 - base_of timer) 4 1)
bus_reaches_device_example =
    bus_reaches_device (λ s. s) timer idle 0 cpu 0x60005010 4 1 in_timer no_ram_read no_ram_write

-- Both cores sleep until tick 25. The timers' divider is 20.
abbrev scaled : State
scaled = record asleep { opts = record asleep.opts { timer_divider = 20 } }

scaled-IsSettled : IsSettled scaled
unfolding serial_iir ch_reg
scaled-IsSettled = record {
  uart0 = refl;
  uart1 = refl;
  drained = refl;
  no_underrun = refl;
  no_request = λ i h. refl;
}

scaled-IsTimed : IsTimed scaled 0
scaled-IsTimed = record {
  began = refl;
  second_counted = refl;
  small = omega arith;
  in_range = omega arith;
}

scaled-IsScaled : IsScaled scaled
scaled-IsScaled = record {
  usec_in = omega arith;
  divider_above = omega arith;
  divider_in = omega arith;
  phase_in = omega arith;
}

until_25 : idle_advance_limit scaled ≡ 25
unfolding idle_advance_limit i2c_idle_quiescent
until_25 = refl

bus_advance-ticks_example :
    let (t, f) = bus_advance file scaled blank 25 in
    let (u, g) = bus_ticks file 25 (scaled, blank) in
    (u ≡ tick_by_tick scaled 25 t)
    × (g ≡ f)
    × (t.timer.cfg_tick_phase ≡ scaled.timer.cfg_tick_phase)
    × (t.counters.fast_forwarded_ticks ≡ u64 (scaled.counters.fast_forwarded_ticks + (25 - 1)))
bus_advance-ticks_example =
    bus_advance-ticks file scaled blank 0 25 scaled-IsSettled scaled-IsTimed scaled-IsScaled
      (omega arith) (omega (arith, until_25))
