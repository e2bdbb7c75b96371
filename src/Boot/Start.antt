-- ===== src/Boot/Start.antt =====
-- Where and how the cores start.
use nano1g_unicorn_c.Base.{
  ℕ, ◌^◌, ◌<◌, ◌≡◌, ◌⊎◌, refl, ◌∙◌, arith, Bool, true, false, Option, List, [], ◌∷◌, Core, cpu, cop,
  inl, inr, Buffer,
}
use nano1g_unicorn_c.State.{State, BootMode, boot_direct, boot_flash}
use nano1g_unicorn_c.Mailbox.{other_core}
use nano1g_unicorn_c.Intc.{Engine, Reg, cpsr, lr, pc}
use nano1g_unicorn_c.Intc.Entry.{IsFaithful}
use nano1g_unicorn_c.Boot.{
  start_of, load_for, set_regs, reset_regs, reset_core, reset_cores, boot_reset,
}

module _ {E : Type 0} (g : Engine E) (f : IsFaithful g) where
  -- Writes of one core's registers leave the other's.
  set_regs-other :
      (l : List (Reg × ℕ)) (e : E) (core : Core) (r : Reg)
      → g.reg_read (set_regs g l e core) (other_core core) r ≡ g.reg_read e (other_core core) r
  unfolding set_regs
  set_regs-other [] e core r = refl
  set_regs-other ((r', value) ∷ rest) e core r =
      set_regs-other rest (g.reg_write e core r' value) core r ∙ f.read_other e core r' r value

  -- The last writes are those of the status word and of the program counter.
  set_regs-starts :
      (mode : BootMode) (entry : ℕ) (e : E) (core : Core)
      → entry < 2 ^ 32
      → (g.reg_read (set_regs g (reset_regs mode entry) e core) core pc ≡ entry)
        × (g.reg_read (set_regs g (reset_regs mode entry) e core) core cpsr ≡ 0xd3)
  unfolding set_regs
  set_regs-starts boot_flash entry e core h = (
    f.read_own _ core pc entry h,
    f.read_cpsr _ core pc _ (ground arith) ∙ f.read_own _ core cpsr 0xd3 (omega arith),
  )
  set_regs-starts boot_direct entry e core h = (
    f.read_own _ core pc entry h,
    f.read_cpsr _ core pc _ (ground arith)
        ∙ f.read_cpsr _ core lr _ (ground arith)
        ∙ f.read_own _ core cpsr 0xd3 (omega arith),
  )

  reset_cores_start :
      (t : State) (e : E) (core : Core)
      → start_of t < 2 ^ 32
      → (g.reg_read (reset_cores g t e).1 core pc ≡ start_of t)
        × (g.reg_read (reset_cores g t e).1 core cpsr ≡ 0xd3)
  reset_cores_start t e cpu h =
      let l = reset_regs t.opts.boot_mode (start_of t) in
      let (a, b) = set_regs-starts t.opts.boot_mode (start_of t) e cpu h in
      (
        set_regs-other l (set_regs g l e cpu) cop pc ∙ a,
        set_regs-other l (set_regs g l e cpu) cop cpsr ∙ b,
      )
  reset_cores_start t e cop h =
      set_regs-starts t.opts.boot_mode (start_of t) (reset_core g t e cpu) cop h

  -- With an engine that keeps its registers, a reset whose load succeeds starts each core at the
  -- entry that is then set, or else at the flash or at the load address, in supervisor mode with
  -- both interrupts masked; the coprocessor sleeps, and the first core runs or sleeps as before. A
  -- reset whose load fails ends in the state of the load, with the registers as they were.
  pub boot_reset_lem :
      (s : State) (file : Option Buffer) (e : E) (core : Core) (t : State) (loaded : Bool)
      → load_for s.opts.boot_mode s file ≡ (t, loaded)
      → start_of t < 2 ^ 32
      → ((loaded ≡ true)
          × ((boot_reset g s file e).1 ≡ true)
          × (g.reg_read (boot_reset g s file e).0.1 core pc ≡ start_of t)
          × (g.reg_read (boot_reset g s file e).0.1 core cpsr ≡ 0xd3)
          × ((boot_reset g s file e).0.0.cpu.at1.halted ≡ true)
          × ((boot_reset g s file e).0.0.cpu.at0 ≡ t.cpu.at0))
        ⊎ ((loaded ≡ false) × (boot_reset g s file e ≡ ((t, e), false)))
  unfolding boot_reset
  boot_reset_lem s file e core t true load h =
      let (a, b) = reset_cores_start t e core h in inl (rw load (refl, refl, a, b, refl, refl))
  boot_reset_lem s file e core t false load h = inr (rw load (refl, refl))
