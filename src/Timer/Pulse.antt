-- ===== src/Timer/Pulse.antt =====
-- A tick of several steps against a timer that counts one step at a time.
use native.Mathlib.Nat.{mod-eq_of_lt, mod-eq-sub-mod}
use nano1g_unicorn_c.Base.{
  ℕ, zero, suc, ◌+◌, ◌-◌, ◌%◌, ◌<◌, true, false, not, ◌||◌, ltb, leb, ◌==◌, if◌then◌else◌,
  Bool-cases, inl, inr, bit_and, ◌≡◌, refl, sym, ◌∙◌, ap, arith,
}
use nano1g_unicorn_c.Word.{bit_and-clear_self, clear_bits, test_bits}
use nano1g_unicorn_c.Timer.{Channel, reload, tick_channel}

-- One step of a running timer: it counts down, and at 1 it fires and starts again or stops.
unfoldable pub pulse : Channel → Channel
pulse c =
    if not (test_bits c.cfg 0x80000000) || (reload c.cfg == 0) || (c.val == 0)
    then c
    else if ltb 1 c.val
    then record c { val = c.val - 1 }
    else if test_bits c.cfg 0x40000000
    then record c { val = reload c.cfg; fired = true }
    else record { cfg = clear_bits c.cfg 0x80000000; val = 0; fired = true }

unfoldable pub pulses : ℕ → Channel → Channel
pulses zero c = c
pulses (suc n) c = pulses n (pulse c)

-- A tick that keeps an interrupt already raised.
abbrev tick_on : ℕ → Channel → Channel
tick_on n c =
    let d = tick_channel n c.cfg c.val in
    record { cfg = d.cfg; val = d.val; fired = c.fired || d.fired }

tick_on-zero : (c : Channel) → tick_on 0 c ≡ c
unfolding tick_channel
tick_on-zero c = ground arith

and_not : (cfg : ℕ) → bit_and (clear_bits cfg 0x80000000) 0x80000000 ≡ 0
and_not cfg = bit_and-clear_self cfg 0x80000000 (omega arith)

disabled : (cfg : ℕ) → test_bits (clear_bits cfg 0x80000000) 0x80000000 ≡ false
disabled cfg = rw (and_not cfg) refl

-- The three kinds of step: nothing runs, the count goes down, the timer fires.
tick_on_idle :
    (n : ℕ) (c : Channel)
    → (not (test_bits c.cfg 0x80000000) || (reload c.cfg == 0) || (c.val == 0)) ≡ true
    → tick_on (suc n) c ≡ tick_on n (pulse c)
unfolding tick_channel pulse
tick_on_idle n c h = rw h (rw h refl)

module _ (n : ℕ) (c : Channel)
    (runs : (not (test_bits c.cfg 0x80000000) || (reload c.cfg == 0) || (c.val == 0)) ≡ false) where
  tick_on_down : ltb 1 c.val ≡ true → tick_on (suc n) c ≡ tick_on n (pulse c)
  unfolding tick_channel pulse
  tick_on_down h = ground arith

  tick_on_repeat :
      ltb 1 c.val ≡ false
      → test_bits c.cfg 0x40000000 ≡ true
      → tick_on (suc n) c ≡ tick_on n (pulse c)
  unfolding tick_channel pulse
  tick_on_repeat h r =
      ground
        (arith, mod-eq_of_lt {n = n} {m = reload c.cfg}, mod-eq-sub-mod {n = n} {m = reload c.cfg})

  tick_on_stop :
      ltb 1 c.val ≡ false
      → test_bits c.cfg 0x40000000 ≡ false
      → tick_on (suc n) c ≡ tick_on n (pulse c)
  unfolding tick_channel pulse
  tick_on_stop h r = ground (arith, disabled c.cfg)

tick_on-suc : (n : ℕ) (c : Channel) → tick_on (suc n) c ≡ tick_on n (pulse c)
tick_on-suc n c =
    elim (Bool-cases (not (test_bits c.cfg 0x80000000) || (reload c.cfg == 0) || (c.val == 0))) [
      | inl idle ↦ tick_on_idle n c idle
      | inr runs ↦ elim (Bool-cases (ltb 1 c.val)) [
        | inl down ↦ tick_on_down n c runs down
        | inr fires ↦ elim (Bool-cases (test_bits c.cfg 0x40000000)) [
          | inl again ↦ tick_on_repeat n c runs fires again
          | inr once ↦ tick_on_stop n c runs fires once
        ]
      ]
    ]

pulses-tick_on : (n : ℕ) (c : Channel) → pulses n c ≡ tick_on n c
unfolding pulses
pulses-tick_on zero c = sym (tick_on-zero c)
pulses-tick_on (suc n) c = pulses-tick_on n (pulse c) ∙ sym (tick_on-suc n c)

-- One call for n steps does what n single steps do, the interrupt flag included.
pub tick_channel-eq-pulses :
    (n cfg val : ℕ)
    → tick_channel n cfg val ≡ pulses n (record { cfg = cfg; val = val; fired = false })
tick_channel-eq-pulses n cfg val =
    sym (pulses-tick_on n (record { cfg = cfg; val = val; fired = false }))

pulses-add : (n m : ℕ) (c : Channel) → pulses m (pulses n c) ≡ pulses (n + m) c
unfolding pulses
pulses-add zero m c = let e : m ≡ 0 + m = omega arith in ap (λ k. pulses k c) e
pulses-add (suc n) m c =
    let e : suc (n + m) ≡ suc n + m = omega arith in
    pulses-add n m (pulse c) ∙ ap (λ k. pulses k c) e

-- How the steps are cut into ticks does not matter: a tick of n steps and then one of m steps leave
-- the timer as one tick of n + m steps does, and raise the interrupt exactly when that does.
tick_channel-split :
    (n m cfg val : ℕ)
    → let d = tick_channel n cfg val in
      let d' = tick_channel m d.cfg d.val in
      record d' { fired = d.fired || d'.fired } ≡ tick_channel (n + m) cfg val
tick_channel-split n m cfg val =
    sym (pulses-tick_on m (tick_channel n cfg val))
    ∙ ap (pulses m) (tick_channel-eq-pulses n cfg val)
    ∙ pulses-add n m (record { cfg = cfg; val = val; fired = false })
    ∙ sym (tick_channel-eq-pulses (n + m) cfg val)

-- An enabled, repeating timer at its full count, after a tick of n steps, stands where n modulo the
-- period leaves it, still enabled, and has fired exactly when a whole period has gone by.
tick_channel-period :
    (cfg n : ℕ)
    → test_bits cfg 0x80000000 ≡ true
    → test_bits cfg 0x40000000 ≡ true
    → 0 < reload cfg
    → tick_channel n cfg (reload cfg)
      ≡ record { cfg = cfg; val = reload cfg - n % reload cfg; fired = leb (reload cfg) n }
unfolding tick_channel
tick_channel-period cfg n on again pos =
    ground (arith, mod-eq_of_lt {n = n} {m = reload cfg}, mod-eq-sub-mod {n = n} {m = reload cfg})
