-- ===== src/Bus/Calm.antt =====
-- The time that n1g_bus_idle_advance_limit allows is calm.
use native.Mathlib.Decide.{ℕ_discrete}
use native.Mathlib.Nat.{mul-div-le}
use nano1g_unicorn_c.Base.{
  ℕ, ◌+◌, ◌-◌, ◌*◌, ◌/◌, ◌^◌, ◌≡◌, ◌<◌, ◌≤◌, ◌⊎◌, inl, inr, refl, arith, Bool, true, false, not,
  ◌||◌, ltb, ◌==◌,
}
use nano1g_unicorn_c.Word.{u64}
use nano1g_unicorn_c.State.{State}
use nano1g_unicorn_c.Bus.Idle.{
  idle_devices_quiescent, limit_by, ticks_until, until_second, idle_advance_limit,
}
use nano1g_unicorn_c.Bus.Deadlines.{
  Deadline, deadline_of, standby, adc, low_battery, low_battery_standby, four, four-until, chosen,
  idle_advance_limit_le,
}
use nano1g_unicorn_c.Intc.{Engine}
use nano1g_unicorn_c.Bus.Idle.{bus_advance}
use nano1g_unicorn_c.Bus.Quiet.{IsQuiet}
use nano1g_unicorn_c.Bus.QuietTicks.{bus_ticks}
use nano1g_unicorn_c.Bus.FastForward.{IsCalm, tick_by_tick, forward, advance-leaves}
use nano1g_unicorn_c.Bus.Settled.{IsSettled, quiescent-IsQuiet}
use nano1g_unicorn_c.Bus.Steps.{IsScaled}

-- The clock began `e` ticks ago, its second is counted, and no sum of 64 bits runs over.
pub record IsTimed (s : State) (e : ℕ) : Type 0 where
  pub began : s.counters.device_ticks ≡ s.i2c.rtc_base_ticks + e
  pub second_counted : e * s.opts.rtc_usec_per_tick / 1000000 ≡ s.i2c.rtc_last_second
  pub small : (s.i2c.rtc_last_second + 1) * 1000000 + 2 ^ 32 < 2 ^ 64
  pub in_range : s.counters.device_ticks + 65536 < 2 ^ 64

limit_by_ahead :
    (now deadline limit : ℕ) → 1 < limit_by now deadline limit → (deadline ≡ 0) ⊎ (now < deadline)
unfolding limit_by ticks_until
limit_by_ahead now deadline limit h = ground arith

limit_by_more : (now deadline limit : ℕ) → 1 < limit_by now deadline limit → 1 < limit
unfolding limit_by
limit_by_more now deadline limit h = ground arith

-- What follows from an advance of more than one tick.
chosen_more :
    (limit until : ℕ) (b c : Bool) (n : ℕ)
    → 1 < n
    → n ≤ chosen limit until b c
    → (n ≤ limit) × (c ≡ false) × ((b ≡ false) ⊎ (n ≤ until))
chosen_more limit until b c n more h = ground arith

last_true : (a b c : Bool) → (not a || not b || not c) ≡ false → c ≡ true
last_true true true true h = refl
last_true true true false h = absurd (cc h)
last_true true false c h = absurd (cc h)
last_true false b c h = absurd (cc h)

limit_more :
    (s : State) (n : ℕ)
    → 1 < n
    → n ≤ idle_advance_limit s
    → (n ≤ four s)
      × (idle_devices_quiescent s ≡ true)
      × ((not (s.opts.rtc_usec_per_tick == 0) ≡ false) ⊎ (n ≤ until_second s))
unfolding idle_advance_limit
limit_more s n more h =
    let (a, b, c) =
      chosen_more (four s) (until_second s) (not (s.opts.rtc_usec_per_tick == 0))
        (not s.cpu.at0.halted || not s.cpu.at1.halted || not (idle_devices_quiescent s)) n more h in
    (a, last_true s.cpu.at0.halted s.cpu.at1.halted _ b, c)

four-ahead :
    (s : State) (k : Deadline)
    → 1 < four s
    → (deadline_of s k ≡ 0) ⊎ (s.counters.device_ticks < deadline_of s k)
unfolding deadline_of
four-ahead s low_battery_standby h = limit_by_ahead _ _ _ h
four-ahead s low_battery h = limit_by_ahead _ _ _ (limit_by_more _ _ _ h)
four-ahead s adc h = limit_by_ahead _ _ _ (limit_by_more _ _ _ (limit_by_more _ _ _ h))
four-ahead s standby h =
    limit_by_ahead _ _ _ (limit_by_more _ _ _ (limit_by_more _ _ _ (limit_by_more _ _ _ h)))

-- The ticks to the next second, where no sum runs over.
until_second-exact :
    (s : State) (e : ℕ)
    → IsTimed s e
    → s.opts.rtc_usec_per_tick < 2 ^ 32
    → until_second s
      ≡ ((s.i2c.rtc_last_second + 1) * 1000000
          - e * s.opts.rtc_usec_per_tick
          + s.opts.rtc_usec_per_tick
          - 1)
        / s.opts.rtc_usec_per_tick
unfolding until_second
until_second-exact s e c usec_in =
    let r = s.opts.rtc_usec_per_tick in
    let last = s.i2c.rtc_last_second in
    let target : u64 (u64 (last + 1) * 1000000) ≡ (last + 1) * 1000000 = omega (arith, c.small) in
    let since : u64 (s.counters.device_ticks + (2 ^ 64 - s.i2c.rtc_base_ticks)) ≡ e =
      omega (arith, c.began, c.in_range) in
    let below : e * r < (last + 1) * 1000000 = omega (arith, c.second_counted) in
    let elapsed : u64 (e * r) ≡ e * r = omega (arith, below, c.small) in
    let ahead : ltb (e * r) ((last + 1) * 1000000) ≡ true = ground (arith, below) in
    let fits : u64 ((last + 1) * 1000000 - e * r + r - 1) ≡ (last + 1) * 1000000 - e * r + r - 1 =
      omega (arith, c.small, usec_in, below) in
    rw (target, since, elapsed, ahead, fits) refl

mul_mono : (r a b : ℕ) → a ≤ b → r * a ≤ r * b
mul_mono r a b h = grind arith

-- Fewer ticks than the quotient end before the target.
before_target :
    (x target r n j : ℕ)
    → 0 < r
    → x < target
    → n ≤ (target - x + r - 1) / r
    → j < n
    → x + j * r < target
before_target x target r n j pos below le h =
    let rounds : r * ((target - x + r - 1) / r) ≤ target - x + r - 1 =
      mul-div-le (target - x + r - 1) r in
    let some_rounds : r * (j + 1) ≤ r * ((target - x + r - 1) / r) =
      mul_mono r (j + 1) ((target - x + r - 1) / r) (omega (arith, le, h)) in
    let opened : r * (j + 1) ≡ j * r + r = grind arith in
    omega (arith, rounds, some_rounds, opened, pos, below)

within_second :
    (s : State) (e n j : ℕ)
    → IsTimed s e
    → s.opts.rtc_usec_per_tick < 2 ^ 32
    → (not (s.opts.rtc_usec_per_tick == 0) ≡ false) ⊎ (n ≤ until_second s)
    → j < n
    → (e + j) * s.opts.rtc_usec_per_tick < (s.i2c.rtc_last_second + 1) * 1000000
within_second s e n j c usec_in b h =
    let r = s.opts.rtc_usec_per_tick in
    let target = (s.i2c.rtc_last_second + 1) * 1000000 in
    let below : e * r < target = omega (arith, c.second_counted) in
    let opened : (e + j) * r ≡ e * r + j * r = grind arith in
    elim (ℕ_discrete r 0) [
      | yes none ↦ rw (none) (ground arith)
      | no some_usec ↦ elim b [
        | inl stopped ↦ absurd (ground (arith, stopped, some_usec))
        | inr le ↦
            let exact = until_second-exact s e c usec_in in
            omega (
              arith,
              opened,
              before_target (e * r) target r n j (omega (arith, some_usec)) below
                  (omega (arith, exact, le)) h,
            )
      ]
    ]

-- What an advance of more than one tick within the limit finds.
limit-IsCalm :
    (s : State) (e n : ℕ)
    → IsSettled s
    → IsTimed s e
    → s.opts.rtc_usec_per_tick < 2 ^ 32
    → 1 < n
    → n ≤ idle_advance_limit s
    → IsQuiet s × IsCalm s e n
limit-IsCalm s e n settled c usec_in more h =
    let (le, quiescent, second) = limit_more s n more h in
    let (quiet, steady) = quiescent-IsQuiet s quiescent settled in
    (
      quiet,
      record {
        ahead = λ k. elim (four-ahead s k (omega (arith, more, le))) [
          | inl none ↦ inl none
          | inr ahead ↦ inr (omega (arith, four-until s k ahead, le))
        ];
        steady = steady;
        began = c.began;
        second_counted = omega (arith, c.second_counted);
        within = λ j. within_second s e n j c usec_in second;
        small = omega (arith, c.small);
        in_range = omega (arith, c.in_range, idle_advance_limit_le s, h);
      },
    )

-- An advance by more than one tick, but no more than n1g_bus_idle_advance_limit allows, against that
-- many single ticks. The clock and the prescaler are in range, and besides what the limit tests, no
-- UART has an interrupt to report, the audio port keeps no fraction of a sample and no underrun, and no DMA
-- channel's command asks for a transfer to the LCD. Then the single ticks leave the cores' registers
-- of the advance and its state, with two fields of their own: the timers' phase, which is the
-- remainder by the divider of the phase before and all the ticks' microseconds, where the advance
-- leaves the phase before; and the count of skipped ticks, which stays, where the advance adds all
-- ticks but one to it.
pub bus_advance-ticks :
    {E : Type 0} (engine : Engine E) (s : State) (r : E) (e n : ℕ)
    → IsSettled s
    → IsTimed s e
    → IsScaled s
    → 1 < n
    → n ≤ idle_advance_limit s
    → let (t, f) = bus_advance engine s r n in
      let (u, g) = bus_ticks engine n (s, r) in
      (u ≡ tick_by_tick s n t)
      × (g ≡ f)
      × (t.timer.cfg_tick_phase ≡ s.timer.cfg_tick_phase)
      × (t.counters.fast_forwarded_ticks ≡ u64 (s.counters.fast_forwarded_ticks + (n - 1)))
bus_advance-ticks engine s r e n settled c scaled more h =
    let (quiet, calm) = limit-IsCalm s e n settled c scaled.usec_in more h in
    let (same, registers) = forward engine n s r e quiet calm scaled more in
    let (phase, skips) = advance-leaves engine n s r quiet more in (same, registers, phase, skips)
