-- ===== src/Bus/FastForward.antt =====
-- An advance over idle time against the ticks that it stands for.
use nano1g_unicorn_c.Base.{
  ℕ, zero, suc, ◌+◌, ◌-◌, ◌*◌, ◌/◌, ◌^◌, ◌≡◌, ◌<◌, ◌≤◌, ◌⊎◌, inl, inr, refl, sym, ◌∙◌, ap, ap₂, ◌%◌,
  arith, true, false, leb,
}
use nano1g_unicorn_c.Word.{u64}
use nano1g_unicorn_c.State.{State}
use nano1g_unicorn_c.Intc.{Engine}
use nano1g_unicorn_c.Intc.Idle.{intc_tick-IsClear}
use nano1g_unicorn_c.I2c.Battery.{i2c_idle_quiescent}
use nano1g_unicorn_c.I2c.Rtc.{seconds_since}
use nano1g_unicorn_c.I2c.Tick.{i2c_tick}
use nano1g_unicorn_c.I2c.Rest.{Waits, Rests, i2c_tick-Rests}
use nano1g_unicorn_c.I2c.Only.{i2c_tick-ChangesOnly}
use nano1g_unicorn_c.I2c.Phase.{with_phase, i2c_tick-with_phase}
use nano1g_unicorn_c.Bus.Idle.{skip_ticks, bus_advance}
use nano1g_unicorn_c.Bus.Deadlines.{
  Deadline, deadline_of, standby, adc, low_battery, low_battery_standby,
}
use nano1g_unicorn_c.Bus.Quiet.{IsQuiet}
use nano1g_unicorn_c.Bus.QuietTicks.{
  step, quiet_ticks, bus_ticks, bus_ticks-IsQuiet, i2c_tick-IsQuiet, moved-IsQuiet,
}
use nano1g_unicorn_c.Bus.Steps.{steps, steps-skip_ticks, IsScaled, steps-phase}

-- Before the tick number `n` from now nothing is due. The clock began `e` ticks ago, and its second
-- has been counted.
pub record IsCalm (s : State) (e n : ℕ) : Type 0 where
  pub ahead :
      (k : Deadline) → (deadline_of s k ≡ 0) ⊎ (s.counters.device_ticks + n ≤ deadline_of s k)
  pub steady : i2c_idle_quiescent s ≡ true
  pub began : s.counters.device_ticks ≡ s.i2c.rtc_base_ticks + e
  pub second_counted : s.i2c.rtc_last_second * 1000000 ≤ e * s.opts.rtc_usec_per_tick
  pub within :
      (j : ℕ) → j < n → (e + j) * s.opts.rtc_usec_per_tick < (s.i2c.rtc_last_second + 1) * 1000000
  pub small : (s.i2c.rtc_last_second + 1) * 1000000 < 2 ^ 64
  pub in_range : s.counters.device_ticks + n < 2 ^ 64

step_ticks :
    (s : State) (e n : ℕ)
    → IsCalm s e (suc n)
    → (step s).counters.device_ticks ≡ s.counters.device_ticks + 1
step_ticks s e n c = omega (arith, c.in_range)

wait_on :
    (s : State) (e n deadline : ℕ)
    → IsCalm s e (suc n)
    → 0 < n
    → (deadline ≡ 0) ⊎ (s.counters.device_ticks + suc n ≤ deadline)
    → Waits (step s) deadline
wait_on s e n deadline c pos (inl none) = inl none
wait_on s e n deadline c pos (inr ahead) = inr (omega (arith, step_ticks s e n c, ahead, pos))

seconds_at :
    (t base e r last : ℕ)
    → t ≡ base + e
    → t < 2 ^ 64
    → last * 1000000 ≤ e * r
    → e * r < (last + 1) * 1000000
    → (last + 1) * 1000000 < 2 ^ 64
    → u64 (u64 (t + (2 ^ 64 - base)) * r) / 1000000 ≡ last
seconds_at t base e r last began lt low high small =
    let since : u64 (t + (2 ^ 64 - base)) ≡ e = omega (arith, began, lt) in
    rw since (omega (arith, low, high, small))

later : (e r m : ℕ) → e * r ≤ (e + m) * r
later e r m = grind arith

-- After one tick of the clock nothing is due, and the rest of the time is calm as well.
step-Rests : (s : State) (e n : ℕ) → IsCalm s e (suc n) → 0 < n → Rests (step s)
unfolding i2c_idle_quiescent seconds_since deadline_of
step-Rests s e n c pos = record {
  standby_waits = wait_on s e n s.i2c.pcf_standby_deadline c pos (c.ahead standby);
  adc_waits = wait_on s e n s.i2c.pcf_adc_deadline c pos (c.ahead adc);
  low_waits = wait_on s e n s.i2c.pcf_low_battery_deadline c pos (c.ahead low_battery);
  low_standby_waits =
      wait_on s e n s.i2c.pcf_low_battery_standby_deadline c pos (c.ahead low_battery_standby);
  battery_steady = c.steady;
  same_second =
      seconds_at (step s).counters.device_ticks s.i2c.rtc_base_ticks (e + 1)
        s.opts.rtc_usec_per_tick s.i2c.rtc_last_second (omega (arith, step_ticks s e n c, c.began))
        (omega (arith, step_ticks s e n c, c.in_range))
        (omega (arith, later e s.opts.rtc_usec_per_tick 1, c.second_counted))
        (c.within 1 (omega (arith, pos))) c.small;
}

shift_within : (e j r b : ℕ) → (e + suc j) * r < b → (e + 1 + j) * r < b
shift_within e j r b h = let same : e + suc j ≡ e + 1 + j = omega arith in rw (sym same) h

step-IsCalm : (s : State) (e n : ℕ) → IsCalm s e (suc n) → IsCalm (step s) (e + 1) n
unfolding i2c_idle_quiescent deadline_of
step-IsCalm s e n c = record {
  ahead = λ k. elim (c.ahead k) [
    | inl none ↦ inl none
    | inr ahead ↦ inr (omega (arith, step_ticks s e n c, ahead))
  ];
  steady = c.steady;
  began = omega (arith, step_ticks s e n c, c.began);
  second_counted = omega (arith, later e s.opts.rtc_usec_per_tick 1, c.second_counted);
  within = λ j h. shift_within e j s.opts.rtc_usec_per_tick _ (c.within (suc j) (omega (arith, h)));
  small = c.small;
  in_range = omega (arith, step_ticks s e n c, c.in_range);
}

-- All but the last tick of the power chip do nothing.
quiet_ticks-steps :
    (n : ℕ) (s : State) (e : ℕ)
    → IsCalm s e (suc n)
    → quiet_ticks (suc n) s ≡ i2c_tick (steps (suc n) s)
unfolding quiet_ticks steps
quiet_ticks-steps zero s e c = refl
quiet_ticks-steps (suc n) s e c =
    ap (quiet_ticks (suc n)) (i2c_tick-Rests (step s) (step-Rests s e (suc n) c (omega arith)))
    ∙ quiet_ticks-steps n (step s) (e + 1) (step-IsCalm s e (suc n) c)

skip-IsQuiet : (s : State) (n : ℕ) → IsQuiet s → IsQuiet (i2c_tick (skip_ticks s n))
unfolding skip_ticks
skip-IsQuiet s n q =
    let x = skip_ticks s n in
    i2c_tick-IsQuiet x
      (moved-IsQuiet s x.counters x.timer.usec s.timer.cfg_tick_phase s.i2c s.cpu q)

quiet_ticks-skip :
    (n : ℕ) (s : State) (e : ℕ)
    → IsCalm s e (suc n)
    → s.opts.rtc_usec_per_tick < 2 ^ 32
    → quiet_ticks (suc n) s
      ≡ with_phase (i2c_tick (skip_ticks s (suc n))) (steps (suc n) s).timer.cfg_tick_phase
quiet_ticks-skip n s e c h =
    quiet_ticks-steps n s e c
    ∙ ap i2c_tick (steps-skip_ticks n s h)
    ∙ i2c_tick-with_phase (skip_ticks s (suc n)) (steps (suc n) s).timer.cfg_tick_phase

-- What `n` single ticks of `s` leave where an advance leaves `t`: the remainder by the timer divider
-- has gone on with the ticks, and none of them is counted as skipped.
abbrev pub tick_by_tick : State → ℕ → State → State
tick_by_tick s n t = record t {
  timer = record t.timer {
    cfg_tick_phase = (s.timer.cfg_tick_phase + n * s.opts.rtc_usec_per_tick) % s.opts.timer_divider;
  };
  counters = record t.counters { fast_forwarded_ticks = s.counters.fast_forwarded_ticks };
}

abbrev skipped : State → ℕ → State
skipped t n = record t {
  counters = record t.counters {
    fast_forwarded_ticks = u64 (t.counters.fast_forwarded_ticks + (n - 1));
  };
}

module _ {E : Type 0} (engine : Engine E) where
  bus_advance-skip :
      (n : ℕ) (s : State) (r : E)
      → IsQuiet s
      → 1 < n
      → bus_advance engine s r n ≡ (skipped (i2c_tick (skip_ticks s n)) n, r)
  unfolding bus_advance
  bus_advance-skip n s r q more =
      let several : leb n 1 ≡ false = ground arith in
      rw
        (several, intc_tick-IsClear engine (i2c_tick (skip_ticks s n)) r (skip-IsQuiet s n q).clear)
        refl

  -- The two fields that an advance leaves to itself.
  pub advance-leaves :
      (n : ℕ) (s : State) (r : E)
      → IsQuiet s
      → 1 < n
      → let t = (bus_advance engine s r n).0 in
        (t.timer.cfg_tick_phase ≡ s.timer.cfg_tick_phase)
        × (t.counters.fast_forwarded_ticks ≡ u64 (s.counters.fast_forwarded_ticks + (n - 1)))
  unfolding skip_ticks
  advance-leaves n s r q more =
      let skip = bus_advance-skip n s r q more in
      let only = i2c_tick-ChangesOnly (skip_ticks s n) in
      (
        ap {A = State × E} {B = ℕ} (λ x. x.0.timer.cfg_tick_phase) skip
            ∙ ap (λ t. t.timer.cfg_tick_phase) only,
        ap {A = State × E} {B = ℕ} (λ x. x.0.counters.fast_forwarded_ticks) skip
            ∙ ap (λ t. u64 (t.counters.fast_forwarded_ticks + (n - 1))) only,
      )

  -- The advance's state with the phase and the count of single ticks.
  skip-tick_by_tick :
      (n : ℕ) (s : State)
      → IsScaled s
      → with_phase (i2c_tick (skip_ticks s (suc n))) (steps (suc n) s).timer.cfg_tick_phase
        ≡ tick_by_tick s (suc n) (skipped (i2c_tick (skip_ticks s (suc n))) (suc n))
  unfolding skip_ticks
  skip-tick_by_tick n s c =
      let x = skip_ticks s (suc n) in
      let y = i2c_tick x in
      let same : y.counters.fast_forwarded_ticks ≡ s.counters.fast_forwarded_ticks =
        ap (λ t. t.counters.fast_forwarded_ticks) (i2c_tick-ChangesOnly x) in
      ap₂ {A = ℕ} {B = ℕ} {C = State}
        (λ p k. record y {
          timer = record y.timer { cfg_tick_phase = p };
          counters = record y.counters { fast_forwarded_ticks = k };
        })
        (steps-phase n s c) same

  pub forward :
      (n : ℕ) (s : State) (r : E) (e : ℕ)
      → IsQuiet s
      → IsCalm s e n
      → IsScaled s
      → 1 < n
      → let (t, f) = bus_advance engine s r n in
        let (u, g) = bus_ticks engine n (s, r) in (u ≡ tick_by_tick s n t) × (g ≡ f)
  forward zero s r e q c h more = absurd (omega arith)
  forward (suc n) s r e q c h more =
      let (same, still) = bus_ticks-IsQuiet engine (suc n) s r q in
      let t = i2c_tick (skip_ticks s (suc n)) in
      let skip = bus_advance-skip (suc n) s r q more in
      (
        ap {A = State × E} {B = State} (λ x. x.0) same
            ∙ quiet_ticks-skip n s e c h.usec_in
            ∙ skip-tick_by_tick n s h
            ∙ ap {A = State × E} {B = State} (λ x. tick_by_tick s (suc n) x.0) (sym skip),
        ap {A = State × E} {B = E} (λ x. x.1) same
            ∙ ap {A = State × E} {B = E} (λ x. x.1) (sym skip),
      )
