-- ===== src/I2c/Only.antt =====
-- What a tick of the power chip changes.
use nano1g_unicorn_c.Base.{◌≡◌, refl, ◌∙◌, ap, Bool, true, false, if◌then◌else◌}
use nano1g_unicorn_c.State.{State}
use nano1g_unicorn_c.I2c.Standby.{pcf_enter_standby}
use nano1g_unicorn_c.I2c.Tick.{
  tick_standby, tick_adc, tick_battery, tick_low_standby, tick_rtc, i2c_tick,
}

-- Two states that differ at most in the chips on the bus and in the cores.
abbrev pub ChangesOnly : State → State → Type 0
ChangesOnly s t = t ≡ record s { i2c = t.i2c; cpu = t.cpu }

ChangesOnly-trans : (s t u : State) → ChangesOnly s t → ChangesOnly t u → ChangesOnly s u
ChangesOnly-trans s t u a b =
    b ∙ ap {A = State} {B = State} (λ x. record x { i2c = u.i2c; cpu = u.cpu }) a

ChangesOnly-if :
    (s : State) (b : Bool) (x y : State)
    → ChangesOnly s x
    → ChangesOnly s y
    → ChangesOnly s (if b then x else y)
ChangesOnly-if s true x y hx hy = hx
ChangesOnly-if s false x y hx hy = hy

enter-ChangesOnly : (s : State) → ChangesOnly s (pcf_enter_standby s)
unfolding pcf_enter_standby
enter-ChangesOnly s = ChangesOnly-if s s.i2c.pcf_standby _ _ refl refl

standby-ChangesOnly : (s : State) → ChangesOnly s (tick_standby s)
unfolding tick_standby
standby-ChangesOnly s = ChangesOnly-if s _ _ _ (enter-ChangesOnly s) refl

adc-ChangesOnly : (s : State) → ChangesOnly s (tick_adc s)
unfolding tick_adc
adc-ChangesOnly s = ChangesOnly-if s _ _ _ refl refl

battery-ChangesOnly : (s : State) → ChangesOnly s (tick_battery s)
unfolding tick_battery
battery-ChangesOnly s = refl

low_standby-ChangesOnly : (s : State) → ChangesOnly s (tick_low_standby s)
unfolding tick_low_standby
low_standby-ChangesOnly s =
    let woken = record s { i2c = record s.i2c { pcf_low_battery_standby_deadline = 0 } } in
    ChangesOnly-if s _ _ _
      (ChangesOnly-trans s woken (pcf_enter_standby woken) refl (enter-ChangesOnly woken)) refl

rtc-ChangesOnly : (s : State) → ChangesOnly s (tick_rtc s)
unfolding tick_rtc
rtc-ChangesOnly s = ChangesOnly-if s _ _ _ refl refl

pub i2c_tick-ChangesOnly : (s : State) → ChangesOnly s (i2c_tick s)
unfolding i2c_tick
i2c_tick-ChangesOnly s =
    let a = tick_standby s in
    let b = tick_adc a in
    let c = tick_battery b in
    let d = tick_low_standby c in
    ChangesOnly-trans s a (tick_rtc d) (standby-ChangesOnly s) (
      ChangesOnly-trans a b (tick_rtc d) (adc-ChangesOnly a) (
        ChangesOnly-trans b c (tick_rtc d) (battery-ChangesOnly b)
          (ChangesOnly-trans c d (tick_rtc d) (low_standby-ChangesOnly c) (rtc-ChangesOnly d))))
