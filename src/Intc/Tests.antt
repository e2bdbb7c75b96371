-- ===== src/Intc/Tests.antt =====
-- The interrupt controller's theorems at concrete states, with a register file for the engine.
use nano1g_unicorn_c.Base.{◌≡◌, ◌||◌, refl, true, false, arith, cop, get}
use nano1g_unicorn_c.Word.{test_bits}
use nano1g_unicorn_c.State.{State}
use nano1g_unicorn_c.Sample.{idle}
use nano1g_unicorn_c.Sample.File.{Table, file, file-IsFaithful}
use nano1g_unicorn_c.Intc.{
  cpsr, pc, intc_tick, irq_pending, fiq_pending, lo_status, hi_status, enable_of, hi_enable_of,
}
use nano1g_unicorn_c.Intc.Routing.{HoldsWords, pending-iff-source}
use nano1g_unicorn_c.Intc.Entry.{fiq_first, fiq_vector, fiq_cpsr}

-- Source 4 of the coprocessor is pending with priority, source 5 without.
abbrev both : State
both = record idle {
  intc = record idle.intc { cop_status = 0x30; cop_enable = 0x40000030; cop_priority = 0x10 };
}

abbrev user : Table
user = λ core r. 0x10

-- Both kinds are pending.
both_pending : (irq_pending both cop ≡ true) × (fiq_pending both cop ≡ true)
unfolding irq_pending fiq_pending
both_pending = (refl, refl)

both-HoldsWords : HoldsWords both cop
both-HoldsWords = record {
  lo_in = omega arith;
  hi_in = omega arith;
  priority_in = omega arith;
  hi_priority_in = omega arith;
}

pending-iff-source_example : (irq_pending both cop || fiq_pending both cop) ≡ (
    test_bits (lo_status both cop) (enable_of both cop)
    || test_bits (hi_status both cop) (hi_enable_of both cop))
pending-iff-source_example = pending-iff-source both cop both-HoldsWords refl

fiq_first_example :
    let (t, e') = intc_tick file both user in
    (file.reg_read e' cop pc ≡ fiq_vector both)
    × (file.reg_read e' cop cpsr ≡ fiq_cpsr (file.reg_read user cop cpsr))
    × ((get t.cpu cop).halted ≡ false)
fiq_first_example =
    fiq_first file file-IsFaithful both user cop (λ i. omega arith) (unfold fiq_pending in refl)
      refl
