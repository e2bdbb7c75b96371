-- ===== src/Timer/Tick.antt =====
-- n1g_dev_timer_tick as a whole: the prescaler loses no time, and both timers make its steps.
use native.Mathlib.Nat.{mod-eq_of_lt, mod-lt, div-le_self}
use nano1g_unicorn_c.Base.{
  ℕ, zero, suc, ◌+◌, ◌/◌, ◌%◌, ◌^◌, ◌<◌, false, ◌==◌, if◌then◌else◌, ◌≡◌, refl, arith, Core, cpu,
  cop, get,
}
use nano1g_unicorn_c.Word.{u32}
use nano1g_unicorn_c.State.{State}
use nano1g_unicorn_c.Timer.{Channel, raise, tick_timer, timer_tick}
use nano1g_unicorn_c.Timer.Pulse.{pulses, tick_channel-eq-pulses}

abbrev pub channel : State → Core → Channel
channel s i = record { cfg = get s.timer.cfg i; val = get s.timer.val i; fired = false }

-- What a tick of `steps` steps makes of the state: both timers step, and each that fires raises its
-- interrupt; nothing else changes but the clock and the prescaler's phase.
abbrev pub after_steps : ℕ → State → State
after_steps steps s =
    let c0 = pulses steps (channel s cpu) in
    let c1 = pulses steps (channel s cop) in
    let n = if c0.fired then raise cpu s.intc else s.intc in
    record s {
      timer = record {
        cfg = record { at0 = c0.cfg; at1 = c1.cfg };
        val = record { at0 = c0.val; at1 = c1.val };
        usec = u32 (s.timer.usec + s.opts.rtc_usec_per_tick);
        cfg_tick_phase = (s.timer.cfg_tick_phase + s.opts.rtc_usec_per_tick) % s.opts.timer_divider;
      };
      intc = if c1.fired then raise cop n else n;
    }

suc-ne-zero : (n : ℕ) → (suc n == 0) ≡ false
suc-ne-zero n = ground arith

-- The loop over the timers, which the code skips at no steps.
tick_both :
    (n : ℕ) (s : State)
    → (if n == 0 then s else tick_timer n cop (tick_timer n cpu s)) ≡ record s {
      timer = record s.timer {
        cfg = record { at0 = (pulses n (channel s cpu)).cfg; at1 = (pulses n (channel s cop)).cfg };
        val = record { at0 = (pulses n (channel s cpu)).val; at1 = (pulses n (channel s cop)).val };
      };
      intc =
          let m = if (pulses n (channel s cpu)).fired then raise cpu s.intc else s.intc in
          if (pulses n (channel s cop)).fired then raise cop m else m;
    }
unfolding tick_timer pulses
tick_both zero s = refl
tick_both (suc n) s = rw (
  suc-ne-zero n,
  ← tick_channel-eq-pulses (suc n) s.timer.cfg.at0 s.timer.val.at0,
  ← tick_channel-eq-pulses (suc n) s.timer.cfg.at1 s.timer.val.at1,
)

-- With a divider above 0, and the phase and the tick's microseconds together below 2 ^ 32, a tick
-- makes as many steps as the divider fits into that sum: both timers make them one by one, each that
-- fires raises its interrupt, the remainder is the new phase, the clock advances, and no more changes.
pub timer_tick_lem :
    (s : State)
    → 0 < s.opts.timer_divider
    → s.timer.cfg_tick_phase + s.opts.rtc_usec_per_tick < 2 ^ 32
    → timer_tick s
      ≡ after_steps ((s.timer.cfg_tick_phase + s.opts.rtc_usec_per_tick) / s.opts.timer_divider) s
unfolding timer_tick
timer_tick_lem s pos small =
    rw
      (
        mod-eq_of_lt {n = e} {m = 2 ^ 64} (omega arith),
        mod-eq_of_lt {n = e / d} {m = 2 ^ 32} (omega (arith, div-le_self e d)),
        mod-eq_of_lt {n = e % d} {m = 2 ^ 32} (omega (arith, mod-lt e pos)),
      )
      (tick_both (e / d) (record s {
        timer = record s.timer {
          usec = u32 (s.timer.usec + s.opts.rtc_usec_per_tick);
          cfg_tick_phase = e % d;
        };
      }))
  where
    e : ℕ
    e = s.timer.cfg_tick_phase + s.opts.rtc_usec_per_tick

    d : ℕ
    d = s.opts.timer_divider
