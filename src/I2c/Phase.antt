-- ===== src/I2c/Phase.antt =====
-- A tick of the power chip does not read the remainder by the timer divider.
use nano1g_unicorn_c.Base.{ℕ, ◌≡◌, refl, ◌∙◌, ap, Bool, true, false, not, ◌&&◌, ◌==◌, if◌then◌else◌}
use nano1g_unicorn_c.State.{State}
use nano1g_unicorn_c.I2c.Battery.{pcf_complete_adc, pcf_adc_input, i2c_battery_mv}
use nano1g_unicorn_c.I2c.Rtc.{seconds_since, pcf_rtc_fields}
use nano1g_unicorn_c.I2c.Standby.{fall_asleep, halt, pcf_enter_standby, pcf_ticks_for_usec}
use nano1g_unicorn_c.I2c.Tick.{
  is_due, tick_standby, tick_adc, battery_falls, monitor_battery, tick_battery, tick_low_standby,
  next_second, tick_rtc, i2c_tick,
}

abbrev pub with_phase : State → ℕ → State
with_phase s p = record s { timer = record s.timer { cfg_tick_phase = p } }

Same-if :
    (p : ℕ) (b : Bool) (x y x' y' : State)
    → x' ≡ with_phase x p
    → y' ≡ with_phase y p
    → (if b then x' else y') ≡ with_phase (if b then x else y) p
Same-if p true x y x' y' hx hy = hx
Same-if p false x y x' y' hx hy = hy

enter_phase :
    (s : State) (p : ℕ) → pcf_enter_standby (with_phase s p) ≡ with_phase (pcf_enter_standby s) p
unfolding pcf_enter_standby
enter_phase s p =
    let x = record s { i2c = fall_asleep s.i2c; cpu = halt s.cpu } in
    Same-if p s.i2c.pcf_standby s x (with_phase s p) (with_phase x p) refl refl

standby_phase : (s : State) (p : ℕ) → tick_standby (with_phase s p) ≡ with_phase (tick_standby s) p
unfolding tick_standby
standby_phase s p =
    Same-if p (not s.i2c.pcf_standby && is_due s s.i2c.pcf_standby_deadline) (pcf_enter_standby s) s
      (pcf_enter_standby (with_phase s p)) (with_phase s p) (enter_phase s p) refl

adc_phase : (s : State) (p : ℕ) → tick_adc (with_phase s p) ≡ with_phase (tick_adc s) p
unfolding tick_adc pcf_complete_adc pcf_adc_input i2c_battery_mv
adc_phase s p =
    let x = record s { i2c = pcf_complete_adc s } in
    Same-if p (is_due s s.i2c.pcf_adc_deadline) x s (with_phase x p) (with_phase s p) refl refl

battery_phase : (s : State) (p : ℕ) → tick_battery (with_phase s p) ≡ with_phase (tick_battery s) p
unfolding tick_battery monitor_battery battery_falls i2c_battery_mv pcf_ticks_for_usec
battery_phase s p = refl

low_standby_phase :
    (s : State) (p : ℕ) → tick_low_standby (with_phase s p) ≡ with_phase (tick_low_standby s) p
unfolding tick_low_standby
low_standby_phase s p =
    let x = record s { i2c = record s.i2c { pcf_low_battery_standby_deadline = 0 } } in
    Same-if p (not s.i2c.pcf_standby && is_due s s.i2c.pcf_low_battery_standby_deadline)
      (pcf_enter_standby x) s (pcf_enter_standby (with_phase x p)) (with_phase s p)
      (enter_phase x p) refl

rtc_phase : (s : State) (p : ℕ) → tick_rtc (with_phase s p) ≡ with_phase (tick_rtc s) p
unfolding tick_rtc next_second seconds_since pcf_rtc_fields
rtc_phase s p =
    let now = seconds_since s s.i2c.rtc_base_ticks in
    let x = record s { i2c = next_second s now } in
    Same-if p (now == s.i2c.rtc_last_second) s x (with_phase s p) (with_phase x p) refl refl

pub i2c_tick-with_phase :
    (s : State) (p : ℕ) → i2c_tick (with_phase s p) ≡ with_phase (i2c_tick s) p
unfolding i2c_tick
i2c_tick-with_phase s p =
    let a = tick_standby s in
    let b = tick_adc a in
    let c = tick_battery b in
    ap (λ x. tick_rtc (tick_low_standby (tick_battery (tick_adc x)))) (standby_phase s p)
    ∙ ap (λ x. tick_rtc (tick_low_standby (tick_battery x))) (adc_phase a p)
    ∙ ap (λ x. tick_rtc (tick_low_standby x)) (battery_phase b p)
    ∙ ap tick_rtc (low_standby_phase c p)
    ∙ rtc_phase (tick_low_standby c) p
