-- ===== src/I2c/Rest.antt =====
-- A tick of the power chip at which nothing is due.
use nano1g_unicorn_c.Base.{
  if_false, ℕ, ◌+◌, ◌*◌, ◌/◌, ◌≡◌, ◌<◌, ◌⊎◌, inl, inr, refl, ◌∙◌, ap, arith, Bool, true, false, not,
  ◌&&◌, ltb, leb, ◌==◌, if◌then◌else◌,
}
use nano1g_unicorn_c.State.{State, I2c}
use nano1g_unicorn_c.I2c.Battery.{i2c_battery_mv, pcf_bvm_threshold_mv, i2c_idle_quiescent}
use nano1g_unicorn_c.I2c.Rtc.{seconds_since}
use nano1g_unicorn_c.I2c.Tick.{
  is_due, tick_standby, tick_adc, battery_falls, monitor_battery, tick_battery, tick_low_standby,
  tick_rtc, i2c_tick,
}

-- A deadline is none or lies ahead.
abbrev pub Waits : State → ℕ → Type 0
Waits s deadline = (deadline ≡ 0) ⊎ (s.counters.device_ticks < deadline)

pub record Rests (s : State) : Type 0 where
  pub standby_waits : Waits s s.i2c.pcf_standby_deadline
  pub adc_waits : Waits s s.i2c.pcf_adc_deadline
  pub low_waits : Waits s s.i2c.pcf_low_battery_deadline
  pub low_standby_waits : Waits s s.i2c.pcf_low_battery_standby_deadline
  pub battery_steady : i2c_idle_quiescent s ≡ true
  pub same_second : seconds_since s s.i2c.rtc_base_ticks ≡ s.i2c.rtc_last_second

Waits-is_due : (s : State) (deadline : ℕ) → Waits s deadline → is_due s deadline ≡ false
Waits-is_due s deadline (inl none) = rw none refl
Waits-is_due s deadline (inr ahead) = ground arith

if_and : (a b : Bool) (x y : State) → b ≡ false → (if a && b then x else y) ≡ y
if_and true true x y h = absurd (cc h)
if_and true false x y h = refl
if_and false b x y h = refl

-- The battery's tests, and what follows from them.
settle :
    (low below recovered none : Bool) (fall reset clear c : I2c)
    → (if not low && below && none
        then false
        else if low && recovered
        then false
        else if not below && not none
        then false
        else true)
      ≡ true
    → (none ≡ false → fall ≡ c)
    → (none ≡ true → clear ≡ c)
    → (if not low && below
        then fall
        else if low && recovered
        then reset
        else if not below
        then clear
        else c)
      ≡ c
settle true true true none fall reset clear c h a b = absurd (cc h)
settle true false true none fall reset clear c h a b = absurd (cc h)
settle true true false none fall reset clear c h a b = refl
settle true false false true fall reset clear c h a b = b refl
settle true false false false fall reset clear c h a b = absurd (cc h)
settle false true recovered true fall reset clear c h a b = absurd (cc h)
settle false true recovered false fall reset clear c h a b = a refl
settle false false recovered true fall reset clear c h a b = b refl
settle false false recovered false fall reset clear c h a b = absurd (cc h)

falls-Waits :
    (s : State)
    → Waits s s.i2c.pcf_low_battery_deadline
    → (s.i2c.pcf_low_battery_deadline == 0) ≡ false
    → battery_falls s ≡ s.i2c
unfolding battery_falls
falls-Waits s (inl none) h = absurd (cc (ap (λ t. t == 0) none, h))
falls-Waits s (inr ahead) h =
    let late : leb s.i2c.pcf_low_battery_deadline s.counters.device_ticks ≡ false = ground arith in
    rw (h, late) refl

zero_deadline :
    (c : I2c)
    → (c.pcf_low_battery_deadline == 0) ≡ true
    → record c { pcf_low_battery_deadline = 0 } ≡ c
zero_deadline c h =
    let none : 0 ≡ c.pcf_low_battery_deadline = ground (arith, h) in
    ap {A = ℕ} {B = I2c} (λ t. record c { pcf_low_battery_deadline = t }) none

monitor-Rests : (s : State) → Rests s → monitor_battery s ≡ s.i2c
unfolding monitor_battery i2c_idle_quiescent
monitor-Rests s r =
    let battery = i2c_battery_mv s in
    let threshold = pcf_bvm_threshold_mv s.i2c in
    settle s.i2c.pcf_low_battery (ltb battery threshold)
      (leb (threshold + threshold * 4 / 100) battery) (s.i2c.pcf_low_battery_deadline == 0) _ _ _ _
      r.battery_steady (falls-Waits s r.low_waits) (zero_deadline s.i2c)

pub i2c_tick-Rests : (s : State) → Rests s → i2c_tick s ≡ s
unfolding i2c_tick tick_standby tick_adc tick_battery tick_low_standby tick_rtc
i2c_tick-Rests s r =
    let a : tick_standby s ≡ s =
      if_and (not s.i2c.pcf_standby) _ _ s (Waits-is_due s _ r.standby_waits) in
    let b : tick_adc s ≡ s = if_false _ _ s (Waits-is_due s _ r.adc_waits) in
    let c : tick_battery s ≡ s =
      ap {A = I2c} {B = State} (λ t. record s { i2c = t }) (monitor-Rests s r) in
    let d : tick_low_standby s ≡ s =
      if_and (not s.i2c.pcf_standby) _ _ s (Waits-is_due s _ r.low_standby_waits) in
    let same : (seconds_since s s.i2c.rtc_base_ticks == s.i2c.rtc_last_second) ≡ true =
      ground (arith, r.same_second) in
    ap (λ x. tick_rtc (tick_low_standby (tick_battery (tick_adc x)))) a
    ∙ ap (λ x. tick_rtc (tick_low_standby (tick_battery x))) b
    ∙ ap (λ x. tick_rtc (tick_low_standby x)) c
    ∙ ap tick_rtc d
    ∙ rw same refl
