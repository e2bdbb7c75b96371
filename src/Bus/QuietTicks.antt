-- ===== src/Bus/QuietTicks.antt =====
-- Ticks of a machine whose devices are quiet.
use mathlib.Core.Path.{subst}
use nano1g_unicorn_c.Base.{ℕ, zero, suc, Duo, ◌+◌, ◌≡◌, refl, sym, ◌∙◌, ap}
use nano1g_unicorn_c.Word.{u64}
use nano1g_unicorn_c.State.{State, I2c, Cpu, Counters}
use nano1g_unicorn_c.Intc.{Engine, intc_tick}
use nano1g_unicorn_c.Intc.Idle.{intc_tick-IsClear}
use nano1g_unicorn_c.Cpucon.{cpucon_tick}
use nano1g_unicorn_c.Disk.Registers.{disk_tick}
use nano1g_unicorn_c.Serial.{serial_tick}
use nano1g_unicorn_c.I2s.{i2s_tick}
use nano1g_unicorn_c.I2c.Tick.{i2c_tick}
use nano1g_unicorn_c.I2c.Only.{i2c_tick-ChangesOnly}
use nano1g_unicorn_c.Dma.Port.{dma_tick}
use nano1g_unicorn_c.Timer.{timer_tick}
use nano1g_unicorn_c.Timer.Idle.{clock_tick, timer_tick-off}
use nano1g_unicorn_c.Bus.Access.{tick_devices, bus_tick}
use nano1g_unicorn_c.Bus.Quiet.{
  IsQuiet, opto_tick-IsQuiet, i2s_tick-IsQuiet, dma_tick-IsQuiet, serial_tick-IsQuiet,
  cpucon_tick-IsQuiet, disk_tick-IsQuiet,
}

-- The tick's count and the clock's microsecond, alone.
abbrev pub step : State → State
step s =
    clock_tick (record s {
      counters = record s.counters { device_ticks = u64 (s.counters.device_ticks + 1) };
    })

-- What a tick of the quiet machine changes does not wake a device.
pub moved-IsQuiet :
    (s : State) (c : Counters) (usec phase : ℕ) (chips : I2c) (cores : Duo Cpu)
    → IsQuiet s
    → IsQuiet (record s {
      counters = c;
      timer = record s.timer { usec = usec; cfg_tick_phase = phase };
      i2c = chips;
      cpu = cores;
    })
moved-IsQuiet s c usec phase chips cores q = record {
  timer0 = q.timer0;
  timer1 = q.timer1;
  wait0 = q.wait0;
  wait1 = q.wait1;
  release = q.release;
  clear = q.clear;
  uart0 = q.uart0;
  uart1 = q.uart1;
  stopped = q.stopped;
  drained = q.drained;
  no_underrun = q.no_underrun;
  no_request = q.no_request;
  no_audio = q.no_audio;
  no_dma = q.no_dma;
  no_data = q.no_data;
  no_completion = q.no_completion;
  no_nondata = q.no_nondata;
  no_reset = q.no_reset;
}

pub i2c_tick-IsQuiet : (s : State) → IsQuiet s → IsQuiet (i2c_tick s)
i2c_tick-IsQuiet s q = subst IsQuiet (sym (i2c_tick-ChangesOnly s)) (
    moved-IsQuiet s s.counters s.timer.usec s.timer.cfg_tick_phase (i2c_tick s).i2c (i2c_tick s).cpu
      q)

-- The tick as that of the clock and of the power chip.
abbrev pub quiet_tick : State → State
quiet_tick s = i2c_tick (step s)

quiet_tick-IsQuiet : (s : State) → IsQuiet s → IsQuiet (quiet_tick s)
quiet_tick-IsQuiet s q = i2c_tick-IsQuiet (step s) (
    moved-IsQuiet s (step s).counters (step s).timer.usec (step s).timer.cfg_tick_phase s.i2c s.cpu
      q)

-- The devices after the power chip do nothing.
rest-IsQuiet :
    (s : State) → IsQuiet s → disk_tick (cpucon_tick (serial_tick (dma_tick (i2s_tick s)))) ≡ s
rest-IsQuiet s q =
    ap (λ t. disk_tick (cpucon_tick (serial_tick (dma_tick t)))) (i2s_tick-IsQuiet s q)
    ∙ ap (λ t. disk_tick (cpucon_tick (serial_tick t))) (dma_tick-IsQuiet s q)
    ∙ ap (λ t. disk_tick (cpucon_tick t)) (serial_tick-IsQuiet s q)
    ∙ ap disk_tick (cpucon_tick-IsQuiet s q)
    ∙ disk_tick-IsQuiet s q

count_tick : State → State
count_tick s = record s {
  counters = record s.counters { device_ticks = u64 (s.counters.device_ticks + 1) };
}

tick_devices-IsQuiet : (s : State) → IsQuiet s → tick_devices s ≡ quiet_tick s
unfolding tick_devices count_tick
tick_devices-IsQuiet s q =
    let t = count_tick s in
    let quiet : IsQuiet t =
      moved-IsQuiet s t.counters s.timer.usec s.timer.cfg_tick_phase s.i2c s.cpu q in
    ap (λ x. disk_tick (cpucon_tick (serial_tick (dma_tick (i2s_tick (i2c_tick (timer_tick x)))))))
      (opto_tick-IsQuiet t quiet)
    ∙ ap (λ x. disk_tick (cpucon_tick (serial_tick (dma_tick (i2s_tick (i2c_tick x))))))
        (timer_tick-off t quiet.timer0 quiet.timer1)
    ∙ rest-IsQuiet (quiet_tick s) (quiet_tick-IsQuiet s q)

module _ {E : Type 0} (engine : Engine E) where
  -- Several ticks of the machine, and of the clock and the power chip alone.
  unfoldable pub bus_ticks : ℕ → State × E → State × E
  bus_ticks zero x = x
  bus_ticks (suc n) (s, e) = bus_ticks n (bus_tick engine s e)

  bus_tick-IsQuiet : (s : State) (e : E) → IsQuiet s → bus_tick engine s e ≡ (quiet_tick s, e)
  unfolding bus_tick
  bus_tick-IsQuiet s e q =
      ap (λ t. intc_tick engine t e) (tick_devices-IsQuiet s q)
      ∙ intc_tick-IsClear engine (quiet_tick s) e (quiet_tick-IsQuiet s q).clear

unfoldable pub quiet_ticks : ℕ → State → State
quiet_ticks zero s = s
quiet_ticks (suc n) s = quiet_ticks n (quiet_tick s)

-- Ticks of a quiet machine, however many, are those of the clock and of the power chip alone: the
-- other devices, the interrupt controller and the cores' registers stay as they are, and the machine
-- stays quiet.
pub bus_ticks-IsQuiet :
    {E : Type 0} (engine : Engine E) (n : ℕ) (s : State) (e : E)
    → IsQuiet s
    → (bus_ticks engine n (s, e) ≡ (quiet_ticks n s, e)) × IsQuiet (quiet_ticks n s)
unfolding bus_ticks quiet_ticks
bus_ticks-IsQuiet engine zero s e q = (refl, q)
bus_ticks-IsQuiet engine (suc n) s e q =
    let (same, still) = bus_ticks-IsQuiet engine n (quiet_tick s) e (quiet_tick-IsQuiet s q) in
    (ap (bus_ticks engine n) (bus_tick-IsQuiet engine s e q) ∙ same, still)
