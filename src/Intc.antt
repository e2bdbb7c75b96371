-- ===== src/Intc.antt =====
-- src/dev_intc.c: the interrupt controller, and from src/cpu_unicorn.c how a core enters an
-- interrupt. The processor engine is a parameter. Log lines are not modelled.
pub mod Routing
pub mod Entry
pub mod Idle
mod Tests
use nano1g_unicorn_c.Base.{
  ℕ, ◌+◌, ◌-◌, ◌*◌, ◌/◌, ◌%◌, ◌^◌, Bool, true, false, not, ◌&&◌, ◌||◌, ◌==◌, if◌then◌else◌, bit_and,
  bit_or, Core, cpu, cop, get, put,
}
use nano1g_unicorn_c.Word.{u32, u64, not32, clear_bits, test_bits, align4, read_part}
use nano1g_unicorn_c.State.{State, Intc}

abbrev pub lo_status : State → Core → ℕ
lo_status s cpu = bit_or s.intc.cpu_status s.intc.forced_status
lo_status s cop = bit_or s.intc.cop_status s.intc.forced_status

abbrev pub hi_status : State → Core → ℕ
hi_status s cpu = bit_or s.intc.hi_cpu_status s.intc.hi_forced_status
hi_status s cop = bit_or s.intc.hi_cop_status s.intc.hi_forced_status

unfoldable pub hi_summary : State → Core → ℕ
hi_summary s core = if not (hi_status s core == 0) then 0x40000000 else 0

-- The registers of a core.
abbrev pub enable_of : State → Core → ℕ
enable_of s cpu = s.intc.cpu_enable
enable_of s cop = s.intc.cop_enable

abbrev pub priority_of : State → Core → ℕ
priority_of s cpu = s.intc.cpu_priority
priority_of s cop = s.intc.cop_priority

abbrev pub hi_enable_of : State → Core → ℕ
hi_enable_of s cpu = s.intc.hi_cpu_enable
hi_enable_of s cop = s.intc.hi_cop_enable

abbrev pub hi_priority_of : State → Core → ℕ
hi_priority_of s cpu = s.intc.hi_cpu_priority
hi_priority_of s cop = s.intc.hi_cop_priority

unfoldable pub irq_pending : State → Core → Bool
irq_pending s core =
    let lo = clear_bits (bit_and (lo_status s core) (enable_of s core)) (priority_of s core) in
    let hi =
      clear_bits (bit_and (hi_status s core) (hi_enable_of s core)) (hi_priority_of s core) in
    not (lo == 0) || (test_bits (enable_of s core) 0x40000000 && not (hi == 0))

unfoldable pub fiq_pending : State → Core → Bool
fiq_pending s core =
    let lo = bit_and (bit_and (lo_status s core) (enable_of s core)) (priority_of s core) in
    let hi = bit_and (bit_and (hi_status s core) (hi_enable_of s core)) (hi_priority_of s core) in
    not (lo == 0) || not (hi == 0)

-- The switch of n1g_dev_intc_read.
register_value : State → ℕ → ℕ
unfolding hi_summary
register_value s reg =
    if reg == 0x000
    then bit_or (lo_status s cpu) (hi_summary s cpu)
    else if reg == 0x004
    then bit_or (lo_status s cop) (hi_summary s cop)
    else if reg == 0x008
    then bit_and (bit_and (lo_status s cpu) s.intc.cpu_enable) s.intc.cpu_priority
    else if reg == 0x00c
    then bit_and (bit_and (lo_status s cop) s.intc.cop_enable) s.intc.cop_priority
    else if reg == 0x010
    then bit_or (bit_or (bit_or (lo_status s cpu) (lo_status s cop)) (hi_summary s cpu))
        (hi_summary s cop)
    else if reg == 0x014
    then s.intc.forced_status
    else if (reg == 0x020) || ((reg == 0x024) || (reg == 0x028))
    then s.intc.cpu_enable
    else if reg == 0x02c
    then s.intc.cpu_priority
    else if (reg == 0x030) || ((reg == 0x034) || (reg == 0x038))
    then s.intc.cop_enable
    else if reg == 0x03c
    then s.intc.cop_priority
    else if reg == 0x100
    then hi_status s cpu
    else if reg == 0x104
    then hi_status s cop
    else if (reg == 0x108) || (reg == 0x10c)
    then 0
    else if reg == 0x110
    then bit_or (hi_status s cpu) (hi_status s cop)
    else if reg == 0x114
    then s.intc.hi_forced_status
    else if (reg == 0x120) || ((reg == 0x124) || (reg == 0x128))
    then s.intc.hi_cpu_enable
    else if reg == 0x12c
    then s.intc.hi_cpu_priority
    else if (reg == 0x130) || ((reg == 0x134) || (reg == 0x138))
    then s.intc.hi_cop_enable
    else if reg == 0x13c
    then s.intc.hi_cop_priority
    else 0

-- n1g_dev_intc_read.
unfoldable pub intc_read : State → ℕ → ℕ → ℕ
unfolding register_value
intc_read s offset size = read_part (register_value s (align4 offset)) offset size

-- The switch of n1g_dev_intc_write, which uses no size.
unfoldable pub write_register : Intc → ℕ → ℕ → Intc
write_register n offset value =
    if offset == 0x018
    then record n { forced_status = bit_or n.forced_status value }
    else if offset == 0x01c
    then record n { forced_status = clear_bits n.forced_status value }
    else if offset == 0x024
    then record n { cpu_enable = bit_or n.cpu_enable value }
    else if offset == 0x028
    then record n { cpu_enable = clear_bits n.cpu_enable value }
    else if offset == 0x02c
    then record n { cpu_priority = value }
    else if offset == 0x034
    then record n { cop_enable = bit_or n.cop_enable value }
    else if offset == 0x038
    then record n { cop_enable = clear_bits n.cop_enable value }
    else if offset == 0x03c
    then record n { cop_priority = value }
    else if offset == 0x118
    then record n { hi_forced_status = bit_or n.hi_forced_status value }
    else if offset == 0x11c
    then record n { hi_forced_status = clear_bits n.hi_forced_status value }
    else if offset == 0x124
    then record n { hi_cpu_enable = bit_or n.hi_cpu_enable value }
    else if offset == 0x128
    then record n { hi_cpu_enable = clear_bits n.hi_cpu_enable value }
    else if offset == 0x12c
    then record n { hi_cpu_priority = value }
    else if offset == 0x134
    then record n { hi_cop_enable = bit_or n.hi_cop_enable value }
    else if offset == 0x138
    then record n { hi_cop_enable = clear_bits n.hi_cop_enable value }
    else if offset == 0x13c
    then record n { hi_cop_priority = value }
    else n

-- n1g_dev_intc_write.
unfoldable pub intc_write : State → ℕ → ℕ → State
unfolding write_register
intc_write s offset value = record s { intc = write_register s.intc offset value }

-- The engine's registers: r0 to r12 are gpr 0 to gpr 12.
pub data Reg : Type 0 where
  cpsr spsr lr pc sp : Reg
  gpr : ℕ → Reg

-- The processor engine: uc_reg_read, uc_reg_write and uc_emu_stop of a core.
pub record Engine (E : Type 0) : Type 0 where
  pub reg_read : E → Core → Reg → ℕ
  pub reg_write : E → Core → Reg → ℕ → E
  pub stop : E → Core → E

-- halted = false, and ctl &= ~0xe0000000.
unfoldable pub wake : State → Core → State
wake s core = record s {
  cpu = put s.cpu core (record (get s.cpu core) { halted = false });
  cpucon = record s.cpucon {
    ctl = put s.cpucon.ctl core (clear_bits (get s.cpucon.ctl core) 0xe0000000);
  };
}

module _ {E : Type 0} (engine : Engine E) where
  -- The entry into an interrupt: what the two raising functions do alike.
  enter : State → E → Core → ℕ → ℕ → State × E
  unfolding wake
  enter s e core mode vector =
      let old = engine.reg_read e core cpsr in
      let back = u32 (engine.reg_read e core pc + 4) in
      let e1 = engine.reg_write e core cpsr (bit_or (clear_bits old 0x3f) mode) in
      let e2 = engine.reg_write e1 core spsr old in
      let e3 = engine.reg_write e2 core lr back in
      let e4 = engine.reg_write e3 core pc vector in
      let t = wake s core in
      (
        record t { counters = record t.counters { irq_count = u64 (t.counters.irq_count + 1) } },
        engine.stop e4 core,
      )

  -- n1g_cpu_raise_fiq.
  unfoldable pub raise_fiq : State → E → Core → State × E
  unfolding enter
  raise_fiq s e core =
      let vector = if test_bits (s.cachecon 0) 0x10 then s.evp 7 else 0x1c in
      if test_bits (engine.reg_read e core cpsr) 0x40 then (s, e) else enter s e core 0xd1 vector

  -- n1g_cpu_raise_irq.
  unfoldable pub raise_irq : State → E → Core → State × E
  unfolding enter
  raise_irq s e core =
      let vector = if test_bits (s.cachecon 0) 0x10 then s.evp 6 else 0x18 in
      if test_bits (engine.reg_read e core cpsr) 0x80 then (s, e) else enter s e core 0x92 vector

  -- The two kinds of delivery of n1g_dev_intc_tick.
  unfoldable pub deliver_fiq : Core → State × E → State × E
  unfolding raise_fiq wake
  deliver_fiq core (s, e) = if fiq_pending s core then raise_fiq (wake s core) e core else (s, e)

  unfoldable pub deliver_irq : Core → State × E → State × E
  unfolding raise_irq wake
  deliver_irq core (s, e) = if irq_pending s core then raise_irq (wake s core) e core else (s, e)

  -- n1g_dev_intc_tick.
  unfoldable pub intc_tick : State → E → State × E
  unfolding deliver_fiq deliver_irq
  intc_tick s e = deliver_irq cop (deliver_irq cpu (deliver_fiq cop (deliver_fiq cpu (s, e))))
