-- ===== src/Timer/Idle.antt =====
-- A tick while both timers are off.
use nano1g_unicorn_c.Base.{
  if_either, ℕ, ◌+◌, ◌/◌, ◌%◌, ◌≡◌, refl, ◌∙◌, ap, false, ◌==◌, Core, cpu, cop, get,
}
use nano1g_unicorn_c.Word.{u32, u64, test_bits}
use nano1g_unicorn_c.State.{State}
use nano1g_unicorn_c.Timer.{tick_channel, tick_timer, timer_tick}

abbrev IsOff : State → Core → Type 0
IsOff s i = test_bits (get s.timer.cfg i) 0x80000000 ≡ false

tick_channel-off :
    (steps cfg val : ℕ)
    → test_bits cfg 0x80000000 ≡ false
    → tick_channel steps cfg val ≡ record { cfg = cfg; val = val; fired = false }
unfolding tick_channel
tick_channel-off steps cfg val h = rw h refl

tick_timer-off : (steps : ℕ) (i : Core) (s : State) → IsOff s i → tick_timer steps i s ≡ s
unfolding tick_timer
tick_timer-off steps cpu s h = rw (tick_channel-off steps s.timer.cfg.at0 s.timer.val.at0 h) refl
tick_timer-off steps cop s h = rw (tick_channel-off steps s.timer.cfg.at1 s.timer.val.at1 h) refl

-- The clock and the remainder by the divider go on.
abbrev pub clock_tick : State → State
clock_tick s = record s {
  timer = record s.timer {
    usec = u32 (s.timer.usec + s.opts.rtc_usec_per_tick);
    cfg_tick_phase =
        u32 (u64 (s.timer.cfg_tick_phase + s.opts.rtc_usec_per_tick) % s.opts.timer_divider);
  };
}

pub timer_tick-off : (s : State) → IsOff s cpu → IsOff s cop → timer_tick s ≡ clock_tick s
unfolding timer_tick
timer_tick-off s h k =
    let steps =
      u32 (u64 (s.timer.cfg_tick_phase + s.opts.rtc_usec_per_tick) / s.opts.timer_divider) in
    if_either (steps == 0) (clock_tick s) _ (
      ap (tick_timer steps cop) (tick_timer-off steps cpu (clock_tick s) h)
      ∙ tick_timer-off steps cop (clock_tick s) k)
