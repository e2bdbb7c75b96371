-- ===== src/Cpu/Swi.antt =====
-- The entry of a core into a software interrupt.
use nano1g_unicorn_c.Base.{
  ℕ, ◌+◌, ◌-◌, ◌^◌, ◌<◌, ◌≡◌, ◌⊎◌, inl, inr, refl, ◌∙◌, ap, arith, true, false, leb, if◌then◌else◌,
  bit_or, some, Core, Bool-cases,
}
use nano1g_unicorn_c.Word.{
  clear_bits, test_bits, not32, suc-ones, le-ones, bit_or-le-ones, bit_and-le-ones,
}
use nano1g_unicorn_c.State.{State}
use nano1g_unicorn_c.Mailbox.{other_core}
use nano1g_unicorn_c.Intc.{Reg, cpsr, spsr, lr, pc}
use nano1g_unicorn_c.Intc.Entry.{IsFaithful}
use nano1g_unicorn_c.Cpu.{Unicorn, is_swi, swi_return, enter_svc, enter_swi_exception}

-- The vector, and the status word in supervisor mode with interrupts masked.
abbrev pub swi_vector : State → ℕ
swi_vector s = if test_bits (s.cachecon 0) 0x10 then s.evp 2 else 0x08

abbrev pub svc_cpsr : ℕ → ℕ
svc_cpsr old = bit_or (clear_bits old 0x3f) 0x93

svc_cpsr-lt : (old : ℕ) → old < 2 ^ 32 → svc_cpsr old < 2 ^ 32
svc_cpsr-lt old h = omega (
  arith,
  suc-ones 32,
  bit_or-le-ones 32 (clear_bits old 0x3f) 0x93
      (bit_and-le-ones 32 old (not32 0x3f) (le-ones 32 old h)) (le-ones 32 0x93 (omega arith)),
)

swi_vector-lt : (s : State) → s.evp 2 < 2 ^ 32 → swi_vector s < 2 ^ 32
swi_vector-lt s small = elim (Bool-cases (test_bits (s.cachecon 0) 0x10)) [
  | inl h ↦ rw h small
  | inr h ↦ rw h (omega arith)
]

module _ {E : Type 0} (uc : Unicorn E) where
  -- The library reports the interrupt at the instruction or after it.
  swi_return_lem :
      (e : E) (core : Core) (insn at : ℕ)
      → insn + 4 < 2 ^ 32
      → is_swi uc (uc.mem_read e core insn) ≡ true
      → (at ≡ insn) ⊎ ((at ≡ insn + 4) × (is_swi uc (uc.mem_read e core (insn + 4)) ≡ false))
      → swi_return uc e core at ≡ some (insn + 4)
  unfolding swi_return
  swi_return_lem e core insn at h w (inl here) = rw (here, w) (ap some (omega arith))
  swi_return_lem e core insn at h w (inr (after, plain)) =
      let back : insn + 4 - 4 ≡ insn = omega arith in
      let far : leb 4 (insn + 4) ≡ true = ground arith in rw (after, plain, far, back, w) refl

  -- With an engine that keeps its registers: where the word at an address is a software interrupt,
  -- and the library reports it there, or after it where the next word is none, the core goes on at
  -- the vector of software interrupts in supervisor mode with interrupts masked, its link register
  -- holds the address after the instruction, and the other core keeps its registers.
  pub swi_entry :
      IsFaithful uc.regs
      → (s : State) (e : E) (core : Core) (insn at : ℕ) (r : Reg) → s.evp 2 < 2 ^ 32
      → insn + 4 < 2 ^ 32
      → is_swi uc (uc.mem_read e core insn) ≡ true
      → (at ≡ insn) ⊎ ((at ≡ insn + 4) × (is_swi uc (uc.mem_read e core (insn + 4)) ≡ false))
      → let (e', done) = enter_swi_exception uc s e core at in
        (done ≡ true)
        × (uc.regs.reg_read e' core pc ≡ swi_vector s)
        × (uc.regs.reg_read e' core lr ≡ insn + 4)
        × (uc.regs.reg_read e' core cpsr ≡ svc_cpsr (uc.regs.reg_read e core cpsr))
        × (uc.regs.reg_read e' (other_core core) r ≡ uc.regs.reg_read e (other_core core) r)
  unfolding enter_swi_exception enter_svc
  swi_entry f s e core insn at r small h w reported =
      rw (swi_return_lem e core insn at h w reported) (
        refl,
        f.read_own _ core pc (swi_vector s) (swi_vector-lt s small),
        f.read_lr _ core _ ∙ f.read_own _ core lr (insn + 4) h,
        f.read_cpsr _ core pc _ (ground arith)
            ∙ f.read_cpsr _ core lr _ (ground arith)
            ∙ f.read_cpsr _ core spsr _ (ground arith)
            ∙ f.read_own _ core cpsr _ (svc_cpsr-lt _ (f.read_in e core cpsr)),
        f.read_other _ core pc r _
            ∙ f.read_other _ core lr r _
            ∙ f.read_other _ core spsr r _
            ∙ f.read_other _ core cpsr r _,
      )
