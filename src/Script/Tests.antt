-- ===== src/Script/Tests.antt =====
-- A script of two waits at a resting machine.
use nano1g_unicorn_c.Base.{◌≡◌, true, suc, refl}
use nano1g_unicorn_c.Sample.{idle}
use nano1g_unicorn_c.Script.{
  wait, Script, play_event, play_events, script_tick, script_advance_wait, script_done,
}
use nano1g_unicorn_c.Script.Ends.{remaining, waits, script_ticks, script_ticks-done}

abbrev two_waits : Script
two_waits = record { events = λ _. wait 5; count = 2; cursor = 0; wait_left = 1 }

two_waits-remaining : remaining two_waits ≡ 11
unfolding waits
two_waits-remaining = refl

-- The first wait is over in one tick, and the next tick starts the wait of five.
second_tick : (script_ticks 2 two_waits idle).0.wait_left ≡ 4
unfolding script_ticks script_tick play_events play_event
second_tick = refl

skipped : (script_advance_wait (record two_waits { wait_left = 4 }) 9).wait_left ≡ 0
unfolding script_advance_wait
skipped = refl

script_ticks-done_example :
    script_done (script_ticks (suc (remaining two_waits)) two_waits idle).0 ≡ true
script_ticks-done_example = script_ticks-done two_waits idle
