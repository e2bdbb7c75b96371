-- ===== src/Boot.antt =====
-- src/boot_reset.c: the start of both cores.
pub mod Start
mod Tests
use nano1g_unicorn_c.Base.{
  ℕ, Bool, true, false, if◌then◌else◌, Option, List, [], ◌∷◌, Core, cpu, cop, put, Buffer,
}
use nano1g_unicorn_c.State.{State, BootMode, boot_direct, boot_flash}
use nano1g_unicorn_c.Intc.{Engine, Reg, cpsr, lr, pc, sp, gpr}
use nano1g_unicorn_c.Firmware.{load_firmware, load_firmware_from_disk}

-- What set_arm_reset_regs writes: a stack for each mode, then the state of the start.
abbrev pub arm_reset_regs : ℕ → List (Reg × ℕ)
arm_reset_regs entry =
    (cpsr, 0x10)
    ∷ (sp, 0x40017bfc)
    ∷ (cpsr, 0x11)
    ∷ (sp, 0x400177fc)
    ∷ (cpsr, 0x12)
    ∷ (sp, 0x400173fc)
    ∷ (cpsr, 0x13)
    ∷ (sp, 0x40016ffc)
    ∷ (cpsr, 0x17)
    ∷ (sp, 0x40016bfc)
    ∷ (cpsr, 0x1b)
    ∷ (sp, 0x400167fc)
    ∷ (cpsr, 0xd3)
    ∷ (lr, 0)
    ∷ (pc, entry)
    ∷ []

-- What set_flash_reset_regs writes.
abbrev pub flash_reset_regs : ℕ → List (Reg × ℕ)
flash_reset_regs entry =
    (gpr 0, 0)
    ∷ (gpr 1, 0)
    ∷ (gpr 2, 0)
    ∷ (gpr 3, 0)
    ∷ (gpr 4, 0)
    ∷ (gpr 5, 0)
    ∷ (gpr 6, 0)
    ∷ (gpr 7, 0)
    ∷ (gpr 8, 0)
    ∷ (gpr 9, 0)
    ∷ (gpr 10, 0)
    ∷ (gpr 11, 0)
    ∷ (gpr 12, 0)
    ∷ (sp, 0)
    ∷ (lr, 0)
    ∷ (cpsr, 0xd3)
    ∷ (pc, entry)
    ∷ []

abbrev pub is_flash : BootMode → Bool
is_flash boot_flash = true
is_flash boot_direct = false

-- Where the cores start: the entry that is set, or the flash, or the load address.
unfoldable pub start_of : State → ℕ
start_of s =
    if s.opts.entry_set
    then s.opts.entry
    else if is_flash s.opts.boot_mode
    then 0
    else s.opts.load_addr

-- The load before a direct boot, of the disk or of the file that is read.
unfoldable pub load_for : BootMode → State → Option Buffer → State × Bool
load_for boot_flash s file = (s, true)
load_for boot_direct s file =
    if s.opts.firmware_from_disk then load_firmware_from_disk s else load_firmware s file

abbrev pub reset_regs : BootMode → ℕ → List (Reg × ℕ)
reset_regs boot_flash entry = flash_reset_regs entry
reset_regs boot_direct entry = arm_reset_regs entry

module _ {E : Type 0} (engine : Engine E) where
  -- A row of n1g_cpu_set_reg.
  unfoldable pub set_regs : List (Reg × ℕ) → E → Core → E
  set_regs [] e core = e
  set_regs ((r, value) ∷ rest) e core = set_regs rest (engine.reg_write e core r value) core

  abbrev pub reset_core : State → E → Core → E
  reset_core s e core = set_regs (reset_regs s.opts.boot_mode (start_of s)) e core

  abbrev pub reset_cores : State → E → State × E
  reset_cores s e = (
    record s {
      cpu = put s.cpu cop (record s.cpu.at1 { halted = true });
      cpucon = record s.cpucon { ctl = put s.cpucon.ctl cop 0x80000000 };
    },
    reset_core s (reset_core s e cpu) cop,
  )

  abbrev pub when_loaded : State × Bool → E → (State × E) × Bool
  when_loaded (s, true) e = (reset_cores s e, true)
  when_loaded (s, false) e = ((s, e), false)

  -- n1g_boot_reset.
  unfoldable pub boot_reset : State → Option Buffer → E → (State × E) × Bool
  boot_reset s file e = when_loaded (load_for s.opts.boot_mode s file) e
