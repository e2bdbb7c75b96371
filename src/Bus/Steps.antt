-- ===== src/Bus/Steps.antt =====
-- The count of ticks and the clock's microsecond, several ticks at once.
use native.Mathlib.Nat.{mod-lt, mod-add-mod, mod-eq_of_lt}
use nano1g_unicorn_c.Base.{ℕ, zero, suc, ◌+◌, ◌*◌, ◌%◌, ◌^◌, ◌≡◌, ◌<◌, ◌∙◌, ap, ap₂, arith}
use nano1g_unicorn_c.Word.{u32, u64}
use nano1g_unicorn_c.State.{State}
use nano1g_unicorn_c.I2c.Phase.{with_phase}
use nano1g_unicorn_c.Bus.Idle.{skip_ticks}
use nano1g_unicorn_c.Bus.QuietTicks.{step}

unfoldable pub steps : ℕ → State → State
steps zero s = s
steps (suc n) s = steps n (step s)

with_clock : State → ℕ → ℕ → ℕ → State
with_clock s ticks usec phase = record s {
  counters = record s.counters { device_ticks = ticks };
  timer = record s.timer { usec = usec; cfg_tick_phase = phase };
}

ticks_add : (t n : ℕ) → u64 (u64 (t + 1) + n) ≡ u64 (t + suc n)
ticks_add t n = omega arith

usec_add : (u r n : ℕ) → u32 (u32 (u + r) + u32 (u64 (n * r))) ≡ u32 (u + u32 (u64 (suc n * r)))
usec_add u r n = let more : suc n * r ≡ n * r + r = grind arith in omega (arith, more)

skip_ticks-step :
    (s : State) (n p : ℕ)
    → with_phase (skip_ticks (step s) n) p ≡ with_phase (skip_ticks s (suc n)) p
unfolding skip_ticks with_clock
skip_ticks-step s n p =
    ap₂ {A = ℕ} {B = ℕ} {C = State} (λ t u. with_clock s t u p)
      (ticks_add s.counters.device_ticks n) (usec_add s.timer.usec s.opts.rtc_usec_per_tick n)

one :
    (s : State)
    → s.opts.rtc_usec_per_tick < 2 ^ 32
    → step s ≡ with_phase (skip_ticks s 1) (step s).timer.cfg_tick_phase
unfolding skip_ticks with_clock
one s h =
    ap {A = ℕ} {B = State}
      (λ u. with_clock s (u64 (s.counters.device_ticks + 1)) u (step s).timer.cfg_tick_phase)
      (omega (arith, h))

-- Single ticks of the clock add up to an advance, but for the remainder by the timer divider.
pub steps-skip_ticks :
    (n : ℕ) (s : State)
    → s.opts.rtc_usec_per_tick < 2 ^ 32
    → steps (suc n) s ≡ with_phase (skip_ticks s (suc n)) (steps (suc n) s).timer.cfg_tick_phase
unfolding steps
steps-skip_ticks zero s h = one s h
steps-skip_ticks (suc n) s h = steps-skip_ticks n (step s) h ∙ skip_ticks-step s (suc n) _

-- The timers' prescaler is in range: its divider is above 0 and of 32 bits, as is its phase.
pub record IsScaled (s : State) : Type 0 where
  pub usec_in : s.opts.rtc_usec_per_tick < 2 ^ 32
  pub divider_above : 0 < s.opts.timer_divider
  pub divider_in : s.opts.timer_divider < 2 ^ 32
  pub phase_in : s.timer.cfg_tick_phase < 2 ^ 32

step-phase :
    (s : State)
    → IsScaled s
    → (step s).timer.cfg_tick_phase
      ≡ (s.timer.cfg_tick_phase + s.opts.rtc_usec_per_tick) % s.opts.timer_divider
step-phase s c =
    let e = s.timer.cfg_tick_phase + s.opts.rtc_usec_per_tick in
    let fits : u64 e ≡ e =
      mod-eq_of_lt {n = e} {m = 2 ^ 64} (omega (arith, c.usec_in, c.phase_in)) in
    rw fits (
      mod-eq_of_lt {n = e % s.opts.timer_divider} {m = 2 ^ 32}
        (omega (arith, mod-lt e c.divider_above, c.divider_in)))

step-IsScaled : (s : State) → IsScaled s → IsScaled (step s)
step-IsScaled s c = record {
  usec_in = c.usec_in;
  divider_above = c.divider_above;
  divider_in = c.divider_in;
  phase_in = omega (
    arith,
    step-phase s c,
    mod-lt (s.timer.cfg_tick_phase + s.opts.rtc_usec_per_tick) c.divider_above,
    c.divider_in,
  );
}

phase_add : (p r d n : ℕ) → ((p + r) % d + suc n * r) % d ≡ (p + suc (suc n) * r) % d
phase_add p r d n =
    let more : p + r + suc n * r ≡ p + suc (suc n) * r = grind arith in
    mod-add-mod (p + r) d (suc n * r) ∙ ap (λ t. t % d) more

-- The remainder by the timer divider after several ticks.
pub steps-phase :
    (n : ℕ) (s : State)
    → IsScaled s
    → (steps (suc n) s).timer.cfg_tick_phase
      ≡ (s.timer.cfg_tick_phase + suc n * s.opts.rtc_usec_per_tick) % s.opts.timer_divider
unfolding steps
steps-phase zero s c =
    let single : s.timer.cfg_tick_phase + s.opts.rtc_usec_per_tick
        ≡ s.timer.cfg_tick_phase + 1 * s.opts.rtc_usec_per_tick =
      omega arith in
    step-phase s c ∙ ap (λ t. t % s.opts.timer_divider) single
steps-phase (suc n) s c =
    let r = s.opts.rtc_usec_per_tick in
    let d = s.opts.timer_divider in
    steps-phase n (step s) (step-IsScaled s c)
    ∙ ap (λ p. (p + suc n * r) % d) (step-phase s c)
    ∙ phase_add s.timer.cfg_tick_phase r d n
