-- ===== src/Cpucon/Wait.antt =====
-- A core that waits for a count sleeps through exactly that many device ticks.
use native.Mathlib.Nat.{suc-add}
use native.Mathlib.Decide.{dec_lt}
use nano1g_unicorn_c.Base.{
  ℕ, zero, suc, ◌+◌, ◌-◌, ◌*◌, ◌%◌, ◌<◌, Bool, true, false, not, ◌||◌, ◌==◌, if◌then◌else◌, Core,
  cpu, cop, get, ◌≡◌, refl, sym, ◌∙◌, ap, arith, ltb,
}
use nano1g_unicorn_c.Word.{clear_bits, test_bits, test_bits-whole, bit_and-low_eight}
use nano1g_unicorn_c.State.{State}
use nano1g_unicorn_c.Cpucon.{
  wait_cnt, cnt_mask, woken_bits, sleep_or_wait, wait_count_ticks, tick_core, cpucon_tick,
  cpucon_write,
}

one-add : (k : ℕ) → 1 + k ≡ suc k
one-add k = omega arith

-- What the controller knows of one core.
pub record View : Type 0 where
  pub ctl : ℕ
  pub wait : ℕ
  pub halted : Bool

abbrev pub view : State → Core → View
view s core = record {
  ctl = get s.cpucon.ctl core;
  wait = get s.cpucon.wait_ticks core;
  halted = (get s.cpu core).halted;
}

-- A tick, seen by one core.
step : View → View
step v =
    if not (test_bits v.ctl wait_cnt) || not v.halted
    then v
    else if not (test_bits v.ctl cnt_mask)
    then v
    else if v.wait == 0
    then v
    else if (v.wait - 1) == 0
    then record { ctl = clear_bits v.ctl woken_bits; wait = 0; halted = false }
    else record v { wait = v.wait - 1 }

-- A round of the loop steps its own core and leaves the other.
view-tick_core : (core : Core) (s : State) → view (tick_core core s) core ≡ step (view s core)
unfolding tick_core step
view-tick_core cpu s = ground arith
view-tick_core cop s = ground arith

view-tick_core_cpu : (s : State) → view (tick_core cpu s) cop ≡ view s cop
unfolding tick_core
view-tick_core_cpu s = ground arith

view-tick_core_cop : (s : State) → view (tick_core cop s) cpu ≡ view s cpu
unfolding tick_core
view-tick_core_cop s = ground arith

view-cpucon_tick : (s : State) (core : Core) → view (cpucon_tick s) core ≡ step (view s core)
unfolding cpucon_tick
view-cpucon_tick s cpu = view-tick_core_cop (tick_core cpu s) ∙ view-tick_core cpu s
view-cpucon_tick s cop = view-tick_core cop (tick_core cpu s) ∙ ap step (view-tick_core_cpu s)

abbrev pub ticks : ℕ → State → State
ticks zero s = s
ticks (suc k) s = ticks k (cpucon_tick s)

steps : ℕ → View → View
steps zero v = v
steps (suc k) v = steps k (step v)

view-ticks : (k : ℕ) (s : State) (core : Core) → view (ticks k s) core ≡ steps k (view s core)
unfolding steps
view-ticks zero s core = refl
view-ticks (suc k) s core =
    view-ticks k (cpucon_tick s) core ∙ ap (steps k) (view-cpucon_tick s core)

module _ (ctl : ℕ) (waits : test_bits ctl wait_cnt ≡ true)
    (counts : test_bits ctl cnt_mask ≡ true) where
  step_down :
      (w : ℕ)
      → 1 < w
      → step (record { ctl = ctl; wait = w; halted = true })
        ≡ record { ctl = ctl; wait = w - 1; halted = true }
  unfolding step
  step_down w h = ground arith

  step_wake :
      step (record { ctl = ctl; wait = 1; halted = true })
      ≡ record { ctl = clear_bits ctl woken_bits; wait = 0; halted = false }
  unfolding step
  step_wake = ground arith

  steps_asleep :
      (k w : ℕ)
      → k < w
      → steps k (record { ctl = ctl; wait = w; halted = true })
        ≡ record { ctl = ctl; wait = w - k; halted = true }
  unfolding steps
  steps_asleep zero w h = ground arith
  steps_asleep (suc k) w h =
      ap (steps k) (step_down w (omega arith))
      ∙ steps_asleep k (w - 1) (omega arith)
      ∙ ap (λ t. record { ctl = ctl; wait = t; halted = true }) (omega arith)

  abbrev pub woken : View
  woken = record { ctl = clear_bits ctl woken_bits; wait = 0; halted = false }

  step-woken : step woken ≡ woken
  unfolding step
  step-woken = ground arith

  steps-woken : (k : ℕ) → steps k woken ≡ woken
  unfolding steps
  steps-woken zero = refl
  steps-woken (suc k) = ap (steps k) step-woken ∙ steps-woken k

  steps_awake :
      (w k : ℕ) → 0 < w → steps (w + k) (record { ctl = ctl; wait = w; halted = true }) ≡ woken
  unfolding steps
  steps_awake zero k h = absurd (omega arith)
  steps_awake (suc zero) k h =
      ap (λ t. steps t (record { ctl = ctl; wait = 1; halted = true })) (one-add k)
      ∙ ap (steps k) step_wake
      ∙ steps-woken k
  steps_awake (suc (suc w)) k h =
      ap (λ t. steps t (record { ctl = ctl; wait = suc (suc w); halted = true }))
        (suc-add (suc w) k)
      ∙ ap (steps (suc w + k)) (step_down (suc (suc w)) (omega arith))
      ∙ ap (λ t. steps (suc w + k) (record { ctl = ctl; wait = t; halted = true })) (omega arith)
      ∙ steps_awake (suc w) k (omega arith)

halted_after :
    (ctl : ℕ)
    → test_bits ctl wait_cnt ≡ true
    → test_bits ctl cnt_mask ≡ true
    → (n k : ℕ) → 0 < n
    → (steps k (record { ctl = ctl; wait = n; halted = true })).halted ≡ ltb k n
halted_after ctl w c n k pos = elim (dec_lt k n) [
  | yes h ↦ ap (λ v. v.halted) (steps_asleep ctl w c k n h) ∙ ground arith
  | no h ↦
      let e : n + (k - n) ≡ k = omega arith in
      ap (λ t. (steps t (record { ctl = ctl; wait = n; halted = true })).halted) (sym e)
      ∙ ap (λ v. v.halted) (steps_awake ctl w c n (k - n) pos)
      ∙ ground arith
]

-- The register of each core.
abbrev pub ctl_offset : Core → ℕ
ctl_offset cpu = 0x00
ctl_offset cop = 0x04

waiting :
    (s : State) (core : Core) (value : ℕ)
    → test_bits value wait_cnt ≡ true
    → test_bits value cnt_mask ≡ true
    → view (cpucon_write s (ctl_offset core) value) core
      ≡ record { ctl = value; wait = wait_count_ticks value; halted = true }
unfolding cpucon_write
waiting s cpu value w c = ground (arith, test_bits-whole value sleep_or_wait wait_cnt refl)
waiting s cop value w c = ground (arith, test_bits-whole value sleep_or_wait wait_cnt refl)

wait_count_ticks-pos : (value : ℕ) → 0 < wait_count_ticks value
unfolding wait_count_ticks
wait_count_ticks-pos value = ground (arith, bit_and-low_eight value)

-- The ticks of a count: its low byte, where 0 counts as 1, times 1000 under the millisecond bit,
-- otherwise times 1000000 under the second bit, otherwise as it is.
wait_count_ticks_lem :
    (value : ℕ)
    → wait_count_ticks value
      ≡ (if value % 256 == 0 then 1 else value % 256)
        * (if test_bits value 0x01000000
            then 1000
            else if test_bits value 0x00800000
            then 1000000
            else 1)
unfolding wait_count_ticks
wait_count_ticks_lem value = ground (arith, bit_and-low_eight value)

-- When a core's register is written with a wait with a count, the core is halted after k ticks of
-- the device exactly if k is below the count, whatever state the device was in before.
pub sleeps_exactly :
    (s : State) (core : Core) (value k : ℕ)
    → test_bits value wait_cnt ≡ true
    → test_bits value cnt_mask ≡ true
    → (get (ticks k (cpucon_write s (ctl_offset core) value)).cpu core).halted
      ≡ ltb k (wait_count_ticks value)
sleeps_exactly s core value k w c =
    ap (λ v. v.halted)
      (view-ticks k (cpucon_write s (ctl_offset core) value) core
        ∙ ap (steps k) (waiting s core value w c))
    ∙ halted_after value w c (wait_count_ticks value) k (wait_count_ticks-pos value)
