-- ===== src/Timer/Tests.antt =====
-- The timers' theorems at concrete states.
use nano1g_unicorn_c.Base.{◌≡◌, refl, arith}
use nano1g_unicorn_c.State.{State}
use nano1g_unicorn_c.Sample.{idle}
use nano1g_unicorn_c.Timer.{timer_tick}
use nano1g_unicorn_c.Timer.Tick.{after_steps, timer_tick_lem}

-- Timer 0 repeats from 5 and stands at 2; ticks of 7 microseconds at a divider of 2.
abbrev busy : State
busy = record idle {
  timer = record {
    cfg = record { at0 = 0xc0000005; at1 = 0 };
    val = record { at0 = 2; at1 = 0 };
    usec = 40;
    cfg_tick_phase = 1;
  };
  opts = record idle.opts { timer_divider = 2; rtc_usec_per_tick = 7 };
}

-- Four steps: two to the interrupt, two more of the next round.
busy_tick : (timer_tick busy).timer.val.at0 ≡ 3
unfolding timer_tick
busy_tick = refl

timer_tick_lem_example : timer_tick busy ≡ after_steps 4 busy
timer_tick_lem_example = timer_tick_lem busy (omega arith) (omega arith)
