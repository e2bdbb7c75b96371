-- ===== src/Run/Tests.antt =====
-- Cores that run and cores that sleep until the power chip's next conversion.
use nano1g_unicorn_c.Base.{
  ℕ, ◌+◌, ◌-◌, ◌*◌, ◌<◌, ◌≤◌, ◌≡◌, ◌≢◌, ◌⊎◌, Bool, refl, arith, true, false, Core,
}
use nano1g_unicorn_c.State.{State}
use nano1g_unicorn_c.Sample.{idle, idle_opts, asleep}
use nano1g_unicorn_c.Sample.File.{Table}
use nano1g_unicorn_c.Sample.Library.{library}
use nano1g_unicorn_c.Script.{Script, wait, script_done}
use nano1g_unicorn_c.I2c.Battery.{i2c_idle_quiescent}
use nano1g_unicorn_c.Bus.Idle.{idle_advance_limit}
use nano1g_unicorn_c.Bus.Deadlines.{adc, deadline_of}
use nano1g_unicorn_c.Run.{
  Session, no_more_rounds, slice_of, script_limit, budget_limit, advance_ticks, run_loop,
}
use nano1g_unicorn_c.Run.Progress.{IsBounded, run_loop-ends}
use nano1g_unicorn_c.Run.Skip.{advance_ticks-within}

abbrev blank : Table
blank core r = 0

abbrev no_script : Script
no_script = record { events = λ _. wait 0; count = 0; cursor = 0; wait_left = 0 }

-- A core that goes on and changes nothing.
abbrev go_on : State → Table → Core → ℕ → ℕ → (State × Table) × Bool
go_on s e core at n = ((s, e), true)

abbrev session : Session Table
session = record { state = idle; regs = blank; script = no_script; remaining = 2000 }

bounded : IsBounded idle_opts
bounded = record { ends = refl; slice_pos = omega arith; slice_in = omega arith }

run_loop-ends_example : (run_loop library go_on 2000 idle_opts session).1 ≢ no_more_rounds
run_loop-ends_example = run_loop-ends library go_on 2000 idle_opts session bounded (omega arith)

to_the_deadline : advance_ticks idle_opts asleep no_script 60000 ≡ 25
unfolding advance_ticks idle_advance_limit budget_limit slice_of script_limit i2c_idle_quiescent
to_the_deadline = refl

advance_ticks-within_example :
    (idle_opts.idle_fast_forward ≡ true)
    × (asleep.counters.device_ticks + advance_ticks idle_opts asleep no_script 60000
        ≤ deadline_of asleep adc)
    × ((idle_opts.has_input_script ≡ false)
        ⊎ ((advance_ticks idle_opts asleep no_script 60000 ≤ no_script.wait_left)
            ⊎ (script_done no_script ≡ true)))
    × ((idle_opts.run_forever ≡ true)
        ⊎ ((advance_ticks idle_opts asleep no_script 60000 - 1) * slice_of idle_opts 60000 < 60000))
unfolding slice_of deadline_of
advance_ticks-within_example =
    advance_ticks-within idle_opts asleep no_script 60000 adc (omega arith) (omega arith)
      (omega arith) (omega (arith, to_the_deadline))
