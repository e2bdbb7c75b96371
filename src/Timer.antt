-- ===== src/Timer.antt =====
-- src/dev_timer.c: the two PP502x count-down timers and the microsecond clock.
pub mod Idle
pub mod Pulse
pub mod Tick
mod Tests
use nano1g_unicorn_c.Base.{
  ℕ, ◌+◌, ◌-◌, ◌*◌, ◌/◌, ◌%◌, ◌^◌, Bool, true, false, not, ◌&&◌, ◌||◌, ltb, ◌==◌, if◌then◌else◌,
  bit_and, bit_or, Duo, get, put, Core, cpu, cop,
}
use nano1g_unicorn_c.Word.{u32, u64, clear_bits, test_bits, align4, read_part, merge_write}
use nano1g_unicorn_c.State.{State, Intc, Timer}

-- One of the two timers: its configuration, its count, and the interrupt it has raised.
-- A loop round of n1g_dev_timer_tick reads cfg[i] and val[i] and writes them back.
pub record Channel : Type 0 where
  pub cfg : ℕ
  pub val : ℕ
  pub fired : Bool

-- cfg & 0x1fffffff, the count that a repeating timer starts again from.
abbrev pub reload : ℕ → ℕ
reload cfg = bit_and cfg 0x1fffffff

-- Bit `1u << i` of both status words.
pub raise : Core → Intc → Intc
raise cpu n = record n { cpu_status = bit_or n.cpu_status 1; cop_status = bit_or n.cop_status 1 }
raise cop n = record n { cpu_status = bit_or n.cpu_status 2; cop_status = bit_or n.cop_status 2 }

pub lower : Core → Intc → Intc
lower cpu n = record n {
  cpu_status = clear_bits n.cpu_status 1;
  cop_status = clear_bits n.cop_status 1;
}
lower cop n = record n {
  cpu_status = clear_bits n.cpu_status 2;
  cop_status = clear_bits n.cop_status 2;
}

-- The body of the loop over the timers.
pub tick_channel : ℕ → ℕ → ℕ → Channel
tick_channel steps cfg val =
    let counter = reload cfg in
    let repeat = test_bits cfg 0x40000000 in
    let enabled = test_bits cfg 0x80000000 in
    let residual = (steps - val) % counter in
    if not enabled || (counter == 0) || (val == 0)
    then record { cfg = cfg; val = val; fired = false }
    else if ltb steps val
    then record { cfg = cfg; val = val - steps; fired = false }
    else if repeat
    then record {
      cfg = cfg;
      val = if residual == 0 then counter else counter - residual;
      fired = true;
    }
    else record { cfg = clear_bits cfg 0x80000000; val = 0; fired = true }

-- One round of the loop: timer `i` of the state. `opts.timer_divider` and the rest are not touched.
pub tick_timer : ℕ → Core → State → State
unfolding tick_channel raise
tick_timer steps i s =
    let c = tick_channel steps (get s.timer.cfg i) (get s.timer.val i) in
    record s {
      timer = record s.timer { cfg = put s.timer.cfg i c.cfg; val = put s.timer.val i c.val };
      intc = if c.fired then raise i s.intc else s.intc;
    }

-- n1g_dev_timer_tick. A division by a zero `timer_divider` traps in C; main.c refuses that option.
pub timer_tick : State → State
unfolding tick_timer
timer_tick s =
    let elapsed = u64 (s.timer.cfg_tick_phase + s.opts.rtc_usec_per_tick) in
    let steps = u32 (elapsed / s.opts.timer_divider) in
    let s' = record s {
      timer = record s.timer {
        usec = u32 (s.timer.usec + s.opts.rtc_usec_per_tick);
        cfg_tick_phase = u32 (elapsed % s.opts.timer_divider);
      };
    } in
    if steps == 0 then s' else tick_timer steps cop (tick_timer steps cpu s')

-- n1g_dev_timer_read: the value, and the state with the interrupt acknowledged.
pub timer_read : State → ℕ → ℕ → ℕ × State
unfolding lower read_part
timer_read s offset size =
    let aligned = align4 offset in
    if aligned == 0x00
    then (read_part s.timer.cfg.at0 offset size, s)
    else if aligned == 0x04
    then (read_part s.timer.val.at0 offset size, record s { intc = lower cpu s.intc })
    else if aligned == 0x08
    then (read_part s.timer.cfg.at1 offset size, s)
    else if aligned == 0x0c
    then (read_part s.timer.val.at1 offset size, record s { intc = lower cop s.intc })
    else if aligned == 0x10
    then (read_part s.timer.usec offset size, s)
    else if aligned == 0x14
    then (read_part (s.timer.usec / 1000000) offset size, s)
    else (read_part 0 offset size, s)

-- A write of a configuration register: a timer that becomes enabled loads its count.
pub write_cfg : Core → ℕ → Timer → Timer
write_cfg i value t =
    let starts = test_bits value 0x80000000 && not (test_bits (get t.cfg i) 0x80000000) in
    record t {
      cfg = put t.cfg i value;
      val = if starts then put t.val i (bit_and value 0x1fffffff) else t.val;
    }

-- n1g_dev_timer_write.
pub timer_write : State → ℕ → ℕ → ℕ → State
unfolding write_cfg merge_write
timer_write s offset size value =
    let aligned = align4 offset in
    let t = s.timer in
    if aligned == 0x00
    then record s { timer = write_cfg cpu (merge_write t.cfg.at0 offset size value) t }
    else if aligned == 0x04
    then record s {
      timer = record t { val = put t.val cpu (merge_write t.val.at0 offset size value) };
    }
    else if aligned == 0x08
    then record s { timer = write_cfg cop (merge_write t.cfg.at1 offset size value) t }
    else if aligned == 0x0c
    then record s {
      timer = record t { val = put t.val cop (merge_write t.val.at1 offset size value) };
    }
    else s
