-- ===== src/Bus/Deadlines.antt =====
-- The advance over idle time stops at each deadline.
use nano1g_unicorn_c.Base.{
  ℕ, ◌+◌, ◌≤◌, ◌<◌, ◌≡◌, ◌⊎◌, Bool, not, ◌&&◌, ◌||◌, ltb, ◌==◌, if◌then◌else◌, arith, inl, inr,
}
use nano1g_unicorn_c.State.{State}
use nano1g_unicorn_c.Bus.Idle.{
  idle_devices_quiescent, ticks_until, limit_by, until_second, idle_advance_limit,
}

limit_by_le : (now deadline limit : ℕ) → limit_by now deadline limit ≤ limit
unfolding limit_by
limit_by_le now deadline limit = ground arith

limit_by_until :
    (now deadline limit : ℕ) → now < deadline → now + limit_by now deadline limit ≤ deadline
unfolding limit_by ticks_until
limit_by_until now deadline limit h = ground arith

-- The last choices of the limit.
abbrev pub chosen : ℕ → ℕ → Bool → Bool → ℕ
chosen limit until by_second stays =
    let least = if by_second && ltb until limit then until else limit in
    if stays then 1 else if least == 0 then 1 else least

choose :
    (limit until : ℕ) (b c : Bool) → (chosen limit until b c ≤ limit) ⊎ (chosen limit until b c ≡ 1)
choose limit until b c = ground arith

choose_pos : (limit until : ℕ) (b c : Bool) → 1 ≤ chosen limit until b c
choose_pos limit until b c = ground arith

-- The power chip's four deadlines.
pub data Deadline : Type 0 where
  standby adc low_battery low_battery_standby : Deadline

unfoldable pub deadline_of : State → Deadline → ℕ
deadline_of s standby = s.i2c.pcf_standby_deadline
deadline_of s adc = s.i2c.pcf_adc_deadline
deadline_of s low_battery = s.i2c.pcf_low_battery_deadline
deadline_of s low_battery_standby = s.i2c.pcf_low_battery_standby_deadline

-- The limit by all four.
abbrev pub four : State → ℕ
four s =
    let now = s.counters.device_ticks in
    limit_by now s.i2c.pcf_low_battery_standby_deadline (
      limit_by now s.i2c.pcf_low_battery_deadline
        (limit_by now s.i2c.pcf_adc_deadline (limit_by now s.i2c.pcf_standby_deadline 65536)))

module _ (now : ℕ) where
  -- A later round only lowers the limit.
  keeps :
      (deadline other limit : ℕ)
      → now + limit ≤ deadline
      → now + limit_by now other limit ≤ deadline
  keeps deadline other limit h = omega (arith, limit_by_le now other limit)

pub four-until :
    (s : State) (k : Deadline)
    → s.counters.device_ticks < deadline_of s k
    → s.counters.device_ticks + four s ≤ deadline_of s k
unfolding deadline_of
four-until s standby h =
    let now = s.counters.device_ticks in
    keeps now _ _ _ (keeps now _ _ _ (keeps now _ _ _ (limit_by_until now _ _ h)))
four-until s adc h =
    let now = s.counters.device_ticks in
    keeps now _ _ _ (keeps now _ _ _ (limit_by_until now _ _ h))
four-until s low_battery h =
    let now = s.counters.device_ticks in keeps now _ _ _ (limit_by_until now _ _ h)
four-until s low_battery_standby h = limit_by_until s.counters.device_ticks _ _ h

four-le : (s : State) → four s ≤ 65536
four-le s =
    let now = s.counters.device_ticks in
    let c = s.i2c in
    omega (
      arith,
      limit_by_le now c.pcf_standby_deadline 65536,
      limit_by_le now c.pcf_adc_deadline (limit_by now c.pcf_standby_deadline 65536),
      limit_by_le now c.pcf_low_battery_deadline
          (limit_by now c.pcf_adc_deadline (limit_by now c.pcf_standby_deadline 65536)),
      limit_by_le now c.pcf_low_battery_standby_deadline (
          limit_by now c.pcf_low_battery_deadline
            (limit_by now c.pcf_adc_deadline (limit_by now c.pcf_standby_deadline 65536))),
    )

idle_advance_limit-four : (s : State) → (idle_advance_limit s ≤ four s) ⊎ (idle_advance_limit s ≡ 1)
unfolding idle_advance_limit
idle_advance_limit-four s =
    choose (four s) (until_second s) (not (s.opts.rtc_usec_per_tick == 0))
      (not s.cpu.at0.halted || not s.cpu.at1.halted || not (idle_devices_quiescent s))

idle_advance_limit_pos : (s : State) → 1 ≤ idle_advance_limit s
unfolding idle_advance_limit
idle_advance_limit_pos s =
    choose_pos (four s) (until_second s) (not (s.opts.rtc_usec_per_tick == 0))
      (not s.cpu.at0.halted || not s.cpu.at1.halted || not (idle_devices_quiescent s))

pub idle_advance_limit_le : (s : State) → idle_advance_limit s ≤ 65536
idle_advance_limit_le s = elim (idle_advance_limit-four s) [
  | inl a ↦ omega (arith, four-le s)
  | inr a ↦ omega arith
]

-- The advance that n1g_bus_idle_advance_limit allows is at least one tick and at most 65536, and it
-- does not pass a deadline of the power chip that lies ahead, whatever the state.
pub idle_advance_limit-deadline :
    (s : State) (k : Deadline)
    → s.counters.device_ticks < deadline_of s k
    → (1 ≤ idle_advance_limit s)
      × (idle_advance_limit s ≤ 65536)
      × (s.counters.device_ticks + idle_advance_limit s ≤ deadline_of s k)
idle_advance_limit-deadline s k h = (
  idle_advance_limit_pos s,
  idle_advance_limit_le s,
  elim (idle_advance_limit-four s) [
    | inl a ↦ omega (arith, four-until s k h)
    | inr a ↦ omega arith
  ],
)
