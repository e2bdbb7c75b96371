-- ===== src/Cpucon/Tests.antt =====
-- The sleeping of a core, at concrete values.
use nano1g_unicorn_c.Base.{◌≡◌, refl, true, ltb, cop, get}
use nano1g_unicorn_c.Sample.{idle}
use nano1g_unicorn_c.Cpucon.{wait_count_ticks, cpucon_write, cpucon_tick}
use nano1g_unicorn_c.Cpucon.Wait.{ticks, ctl_offset, sleeps_exactly}

-- The coprocessor waits for 3 ticks.
asleep : (get (ticks 2 (cpucon_write idle 0x04 0x42000003)).cpu cop).halted ≡ true
unfolding cpucon_write cpucon_tick wait_count_ticks
asleep = refl

sleeps_exactly_example :
    (get (ticks 3 (cpucon_write idle (ctl_offset cop) 0x42000003)).cpu cop).halted
    ≡ ltb 3 (wait_count_ticks 0x42000003)
sleeps_exactly_example = sleeps_exactly idle cop 0x42000003 3 refl refl
