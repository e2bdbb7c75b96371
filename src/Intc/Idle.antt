-- ===== src/Intc/Idle.antt =====
-- A tick while no interrupt's status is set.
use nano1g_unicorn_c.Base.{
  ℕ, ◌≡◌, refl, ◌∙◌, ap, arith, Bool, true, false, ◌&&◌, bit_and, Core, cpu, cop,
}
use nano1g_unicorn_c.Word.{eq_of_bits, bit-and, bit-zero, not32, test_bits}
use nano1g_unicorn_c.State.{State, Intc}
use nano1g_unicorn_c.Intc.{
  Engine, lo_status, hi_status, enable_of, hi_enable_of, priority_of, hi_priority_of, irq_pending,
  fiq_pending, deliver_fiq, deliver_irq, intc_tick,
}

pub record IsClear (n : Intc) : Type 0 where
  pub cpu_clear : n.cpu_status ≡ 0
  pub cop_clear : n.cop_status ≡ 0
  pub forced_clear : n.forced_status ≡ 0
  pub hi_cpu_clear : n.hi_cpu_status ≡ 0
  pub hi_cop_clear : n.hi_cop_status ≡ 0
  pub hi_forced_clear : n.hi_forced_status ≡ 0

pub zero-and : (m : ℕ) → bit_and 0 m ≡ 0
zero-and m = eq_of_bits (bit_and 0 m) 0 (λ k. omega (arith, bit-and 0 m k, bit-zero k))

lo_zero : (s : State) (core : Core) → IsClear s.intc → lo_status s core ≡ 0
lo_zero s cpu q = rw (q.cpu_clear, q.forced_clear) refl
lo_zero s cop q = rw (q.cop_clear, q.forced_clear) refl

hi_zero : (s : State) (core : Core) → IsClear s.intc → hi_status s core ≡ 0
hi_zero s cpu q = rw (q.hi_cpu_clear, q.hi_forced_clear) refl
hi_zero s cop q = rw (q.hi_cop_clear, q.hi_forced_clear) refl

and_zero : (a b : ℕ) → bit_and (bit_and 0 a) b ≡ 0
and_zero a b = ap (λ t. bit_and t b) (zero-and a) ∙ zero-and b

and_false : (b : Bool) → (b && false) ≡ false
and_false true = refl
and_false false = refl

no_irq : (s : State) (core : Core) → IsClear s.intc → irq_pending s core ≡ false
unfolding irq_pending
no_irq s core q =
    rw (lo_zero s core q, hi_zero s core q)
      (rw
        (
          and_zero (enable_of s core) (not32 (priority_of s core)),
          and_zero (hi_enable_of s core) (not32 (hi_priority_of s core)),
        )
        (and_false (test_bits (enable_of s core) 0x40000000)))

no_fiq : (s : State) (core : Core) → IsClear s.intc → fiq_pending s core ≡ false
unfolding fiq_pending
no_fiq s core q =
    rw (lo_zero s core q, hi_zero s core q)
      (rw
        (
          and_zero (enable_of s core) (priority_of s core),
          and_zero (hi_enable_of s core) (hi_priority_of s core),
        )
        refl)

module _ {E : Type 0} (engine : Engine E) where
  no_deliver_fiq :
      (s : State) (e : E) (core : Core) → IsClear s.intc → deliver_fiq engine core (s, e) ≡ (s, e)
  unfolding deliver_fiq
  no_deliver_fiq s e core q = rw (no_fiq s core q) refl

  no_deliver_irq :
      (s : State) (e : E) (core : Core) → IsClear s.intc → deliver_irq engine core (s, e) ≡ (s, e)
  unfolding deliver_irq
  no_deliver_irq s e core q = rw (no_irq s core q) refl

  pub intc_tick-IsClear : (s : State) (e : E) → IsClear s.intc → intc_tick engine s e ≡ (s, e)
  unfolding intc_tick
  intc_tick-IsClear s e q =
      ap (λ x. deliver_irq engine cop (deliver_irq engine cpu (deliver_fiq engine cop x)))
        (no_deliver_fiq s e cpu q)
      ∙ ap (λ x. deliver_irq engine cop (deliver_irq engine cpu x)) (no_deliver_fiq s e cop q)
      ∙ ap (λ x. deliver_irq engine cop x) (no_deliver_irq s e cpu q)
      ∙ no_deliver_irq s e cop q
