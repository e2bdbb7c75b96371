-- ===== src/Run.antt =====
-- src/main.c, the loop of main, and n1g_cpu_step_slice of src/cpu_unicorn.c: the cores and the devices
-- in turns. The web front end, the host's profile and the signal that stops the loop are left out.
pub mod Progress
pub mod Skip
mod Tests
use nano1g_unicorn_c.Base.{
  ℕ, zero, suc, ◌+◌, ◌-◌, ◌*◌, ◌/◌, ◌%◌, ◌^◌, Bool, true, false, not, ◌&&◌, ◌||◌, ltb, leb, ◌==◌,
  if◌then◌else◌, Core, cpu, cop, get, put,
}
use nano1g_unicorn_c.Word.{u64}
use nano1g_unicorn_c.State.{State, Opts}
use nano1g_unicorn_c.Intc.{Engine, pc}
use nano1g_unicorn_c.Cpu.{Unicorn}
use nano1g_unicorn_c.Cpu.Mapping.{flush_tb}
use nano1g_unicorn_c.Bus.Access.{bus_tick}
use nano1g_unicorn_c.Bus.Idle.{idle_advance_limit, bus_advance}
use nano1g_unicorn_c.Script.{Script, script_tick, script_advance_wait, script_done}

-- The loop's variables. Its options are an argument of their own: the loop reads the slice, whether
-- to run for ever, whether to skip idle time and whether there is a script, which nothing changes.
pub record Session (E : Type 0) : Type 0 where
  pub state : State
  pub regs : E
  pub script : Script
  pub remaining : ℕ

-- Why the loop is left; the last is no end of the program, but of the rounds that are allowed.
pub data Leave : Type 0 where
  budget_spent core_failed power_woken no_more_rounds : Leave

-- How a round ends: with the next one, with a core that fails, or with the power chip's wake.
pub data Verdict : Type 0 where
  goes_on failed woken : Verdict

abbrev pub lesser : ℕ → ℕ → ℕ
lesser a limit = if ltb limit a then limit else a

-- The instructions of a turn.
unfoldable pub slice_of : Opts → ℕ → ℕ
slice_of o remaining =
    if not o.run_forever && ltb remaining o.slice_insns then remaining else o.slice_insns

-- The ticks of an advance that the input script allows.
unfoldable pub script_limit : Opts → Script → ℕ → ℕ
script_limit o p ticks =
    if not o.has_input_script
    then ticks
    else if p.wait_left == 0
    then (if script_done p then ticks else 1)
    else lesser ticks p.wait_left

-- The ticks that the budget of instructions allows.
unfoldable pub budget_limit : Opts → ℕ → ℕ → ℕ
budget_limit o remaining ticks =
    let slice = slice_of o remaining in
    if o.run_forever then ticks else lesser ticks (u64 (remaining + slice - 1) / slice)

-- advance_ticks.
unfoldable pub advance_ticks : Opts → State → Script → ℕ → ℕ
advance_ticks o s p remaining =
    let ticks = if o.idle_fast_forward then idle_advance_limit s else 1 in
    if ltb 1 ticks then budget_limit o remaining (script_limit o p ticks) else ticks

abbrev pub is_active : State → Core → Bool
is_active s core = (get s.cpu core).running && not (get s.cpu core).halted

abbrev pub one_if : Bool → ℕ → ℕ
one_if true n = u64 (n + 1)
one_if false n = n

abbrev count_boundary : State → State
count_boundary s = record s {
  counters = record s.counters { timing_boundaries = u64 (s.counters.timing_boundaries + 1) };
}

-- The counts before an advance.
abbrev pub count_advance : State → ℕ → ℕ → State
count_advance s ticks scheduled = record s {
  counters = record s.counters {
    scheduled_insns = u64 (s.counters.scheduled_insns + scheduled);
    halted_ticks = u64 (s.counters.halted_ticks + ticks);
  };
}

-- The counts before a turn of the cores.
abbrev pub count_turn : State → ℕ → State
count_turn s slice =
    let active = is_active s cpu || is_active s cop in
    record s {
      counters = record s.counters {
        scheduled_insns = u64 (s.counters.scheduled_insns + slice);
        active_slices = one_if active s.counters.active_slices;
        halted_ticks = one_if (not active) s.counters.halted_ticks;
      };
    }

abbrev count_cpu : State → Bool → State
count_cpu s active = record s {
  counters = record s.counters { cpu_slice_calls = one_if active s.counters.cpu_slice_calls };
}

abbrev count_cop : State → Bool → State
count_cop s active = record s {
  counters = record s.counters { cop_slice_calls = one_if active s.counters.cop_slice_calls };
}

-- The instructions that a core has run.
abbrev count_insns : State → Core → ℕ → State
count_insns s core n = record s {
  cpu =
      put s.cpu core
        (record (get s.cpu core) { guest_insns = u64 ((get s.cpu core).guest_insns + n) });
  counters = record s.counters { guest_insns = u64 (s.counters.guest_insns + n) };
}

abbrev verdict_of : State → Verdict
verdict_of s = if s.i2c.pcf_wake_requests == 0 then goes_on else woken

-- uc_emu_start of a core at an address for a number of instructions, with all that its callbacks do,
-- is the parameter `emulate`.
module _ {E : Type 0} (uc : Unicorn E)
    (emulate : State → E → Core → ℕ → ℕ → (State × E) × Bool) where
  -- Blocks of translated code are dropped outside of emulation.
  flush_pending : State → E → State × E
  flush_pending s e =
      if s.tb_flush_pending then (record s { tb_flush_pending = false }, flush_tb uc e) else (s, e)

  -- n1g_cpu_step_slice.
  unfoldable pub step_slice : State → E → Core → ℕ → (State × E) × Bool
  unfolding flush_pending
  step_slice s e core max_insns =
      let (s1, e1) = flush_pending s e in
      let ((t, f), done) = emulate s1 e1 core (uc.regs.reg_read e1 core pc) max_insns in
      if (get s1.cpu core).halted || not (get s1.cpu core).running
      then ((s1, e1), true)
      else if done
      then ((count_insns t core max_insns, f), true)
      else ((t, f), false)

  -- The round of an advance over idle ticks.
  unfoldable pub advance_round : Opts → Session E → ℕ → Session E × Verdict
  advance_round o r ticks =
      let scheduled = u64 (ticks * slice_of o r.remaining) in
      let (t, f) = bus_advance uc.regs (count_advance r.state ticks scheduled) r.regs ticks in
      let left = if leb r.remaining scheduled then 0 else r.remaining - scheduled in
      (
        record {
          state = count_boundary t;
          regs = f;
          script = if o.has_input_script then script_advance_wait r.script ticks else r.script;
          remaining = if o.run_forever then r.remaining else left;
        },
        verdict_of t,
      )

  -- The turn of the coprocessor, which a core that sleeps does not take.
  cop_turn : State → E → ℕ → Bool → (State × E) × Bool
  unfolding step_slice
  cop_turn s e slice active =
      let ((t, f), done) = step_slice s e cop slice in
      if s.cpu.at1.halted then ((s, e), true) else ((count_cop t active, f), done)

  -- The devices' turn after the cores'.
  device_turn : Opts → Session E → State → E → Session E × Verdict
  device_turn o r s e =
      let (t, f) = bus_tick uc.regs s e in
      let (p, u) =
        if o.has_input_script
        then script_tick r.script (count_boundary t)
        else (r.script, count_boundary t) in
      let left = if o.run_forever then r.remaining else r.remaining - slice_of o r.remaining in
      if t.i2c.pcf_wake_requests == 0
      then (record { state = u; regs = f; script = p; remaining = left }, goes_on)
      else (record r { state = count_boundary t; regs = f }, woken)

  after_cop : Opts → Session E → (State × E) × Bool → Session E × Verdict
  unfolding device_turn
  after_cop o r ((s, e), true) = device_turn o r s e
  after_cop o r ((s, e), false) = (record r { state = s; regs = e }, failed)

  after_cpu : Opts → Session E → (State × E) × Bool → Session E × Verdict
  unfolding cop_turn after_cop
  after_cpu o r ((s, e), true) = after_cop o r (
      cop_turn (count_cpu s (is_active r.state cpu)) e (slice_of o r.remaining)
        (is_active r.state cop))
  after_cpu o r ((s, e), false) =
      (record r { state = count_cpu s (is_active r.state cpu); regs = e }, failed)

  -- The round of a turn.
  unfoldable pub turn_round : Opts → Session E → Session E × Verdict
  unfolding after_cpu
  turn_round o r =
      let slice = slice_of o r.remaining in
      after_cpu o r (step_slice (count_turn r.state slice) r.regs cpu slice)

  -- A round of the loop.
  unfoldable pub play_round : Opts → Session E → Session E × Verdict
  play_round o r =
      let ticks = advance_ticks o r.state r.script r.remaining in
      if ltb 1 ticks then advance_round o r ticks else turn_round o r

  carry_on : Session E × Verdict → Session E × Leave → Session E × Leave
  carry_on (q, goes_on) rest = rest
  carry_on (q, failed) rest = (q, core_failed)
  carry_on (q, woken) rest = (q, power_woken)

  -- The loop, of at most `n` rounds.
  unfoldable pub run_loop : ℕ → Opts → Session E → Session E × Leave
  unfolding carry_on
  run_loop zero o r =
      if not o.run_forever && (r.remaining == 0) then (r, budget_spent) else (r, no_more_rounds)
  run_loop (suc n) o r =
      let next = play_round o r in
      let rest = run_loop n o next.0 in
      if not o.run_forever && (r.remaining == 0) then (r, budget_spent) else carry_on next rest
