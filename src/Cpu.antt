-- ===== src/Cpu.antt =====
-- src/cpu_unicorn.c: the processor's registers, its memory map, and the calls that it makes back.
-- What the Unicorn library does is a record of operations; the hooks that only write log lines and
-- count the firmware's progress are left out. The entry into interrupts is in Intc.
pub mod Above
pub mod Apply
pub mod Backing
pub mod Mapping
pub mod Remap
pub mod Started
pub mod Swi
pub mod Windows
mod Tests
use nano1g_unicorn_c.Base.{
  ℕ, zero, suc, ◌+◌, ◌-◌, ◌*◌, ◌/◌, ◌%◌, ◌^◌, Bool, true, false, not, ◌&&◌, ◌||◌, ltb, leb, ◌==◌,
  if◌then◌else◌, bit_and, bit_or, Option, some, none, List, [], ◌∷◌, Core, cpu, cop, get, put,
}
use nano1g_unicorn_c.Word.{u32, u64, clear_bits, test_bits}
use nano1g_unicorn_c.State.{
  State, LowMap, low_none, low_ram, low_flash, BootMode, boot_direct, boot_flash,
}
use nano1g_unicorn_c.Ram.{sdram_base, sdram_size, sdram_alias_base, fastram_base, fastram_size}
use nano1g_unicorn_c.Flash.{flash_size}
use nano1g_unicorn_c.Memmap.{Access, read_data, write_data, fetch_code, Entry, decode, translate}
use nano1g_unicorn_c.Intc.{Engine, Reg, cpsr, spsr, lr, pc, sp, gpr}
use nano1g_unicorn_c.Bus.Access.{bus_read, bus_write_core}

-- What a range of guest addresses shows: one of the three buffers, or a copy of it.
pub data Region : Type 0 where
  sdram fastram flash : Region

-- The library's operations on a core: uc_mem_read of a word, uc_mem_map_ptr, uc_mem_map,
-- uc_mem_write of a whole buffer, uc_mem_unmap, uc_mmio_map, and uc_ctl_flush_tb with
-- uc_ctl_flush_tlb. The Boolean is whether the answer is UC_ERR_OK.
pub record Unicorn (E : Type 0) : Type 0 where
  pub regs : Engine E
  pub mem_read : E → Core → ℕ → Option ℕ
  pub map_ptr : E → Core → ℕ → ℕ → Region → E × Bool
  pub mem_map : E → Core → ℕ → ℕ → E × Bool
  pub mem_write : E → Core → ℕ → Region → E × Bool
  pub unmap : E → Core → ℕ → ℕ → E × Bool
  pub mmio_map : E → Core → ℕ → ℕ → E × Bool
  pub flush : E → Core → E

-- arm_regs.
abbrev pub arm_reg : ℕ → Reg
arm_reg reg = if reg == 13 then sp else if reg == 14 then lr else if reg == 15 then pc else gpr reg

-- decode_current_mmaps: the eight entries of the address map.
unfoldable pub current_mmaps : State → ℕ → ℕ → List Entry
current_mmaps s zero i = []
current_mmaps s (suc n) i =
    decode (s.memcon (0xf000 / 4 + i * 2)) (s.memcon (0xf004 / 4 + i * 2))
    ∷ current_mmaps s n (i + 1)

abbrev pub translate_now : State → ℕ → Access → Option ℕ
translate_now s addr access = translate (current_mmaps s 8 0) addr access

-- uc_mem_type, as far as the hook knows it.
pub data MemType : Type 0 where
  mem_read mem_write mem_fetch mem_other : MemType

-- UC_PROT_READ, UC_PROT_WRITE and UC_PROT_EXEC.
pub data Prot : Type 0 where
  prot_read prot_write prot_exec : Prot

-- tlb_access_from_type.
unfoldable pub tlb_access_from_type : MemType → Option (Access × Prot)
tlb_access_from_type mem_read = some (read_data, prot_read)
tlb_access_from_type mem_write = some (write_data, prot_write)
tlb_access_from_type mem_fetch = some (fetch_code, prot_exec)
tlb_access_from_type mem_other = none

-- An address that no entry translates stands for itself.
abbrev pub or_same : Option ℕ → ℕ → ℕ
or_same none addr = addr
or_same (some translated) addr = translated

-- hook_tlb_fill: the physical address with its permission, or none.
unfoldable pub tlb_fill_of : State → ℕ → Option (Access × Prot) → Option (ℕ × Prot)
tlb_fill_of s vaddr none = none
tlb_fill_of s vaddr (some (access, perms)) =
    if s.opts.virtual_memmap
    then some (or_same (translate_now s (u32 vaddr) access) (u32 vaddr), perms)
    else none

unfoldable pub hook_tlb_fill : State → ℕ → MemType → Option (ℕ × Prot)
unfolding tlb_access_from_type tlb_fill_of
hook_tlb_fill s vaddr type = tlb_fill_of s vaddr (tlb_access_from_type type)

abbrev count_callback : State → State
count_callback s = record s {
  counters = record s.counters { mmio_callbacks = u64 (s.counters.mmio_callbacks + 1) };
}

-- The address of a callback in the window at `base`.
abbrev pub callback_addr : ℕ → ℕ → ℕ
callback_addr base offset = u32 (if ltb offset base then base + offset else offset)

-- mmio_read_cb.
unfoldable pub mmio_read_cb : State → Core → ℕ → ℕ → ℕ → ℕ × State
mmio_read_cb s core base offset size =
    bus_read (count_callback s) core (callback_addr base offset) size

module _ {E : Type 0} (uc : Unicorn E) where
  -- n1g_cpu_set_gpr and n1g_cpu_get_gpr.
  unfoldable pub set_gpr : E → Core → ℕ → ℕ → E
  set_gpr e core reg value = if leb 16 reg then e else uc.regs.reg_write e core (arm_reg reg) value

  unfoldable pub get_gpr : E → Core → ℕ → ℕ
  get_gpr e core reg = if leb 16 reg then 0 else uc.regs.reg_read e core (arm_reg reg)

  -- mmio_write_cb. Before a flush of translated code the core is stopped after the store.
  unfoldable pub skip_store : State × ℕ → E → Core → (State × ℕ) × E
  skip_store (s, last) e core =
      let width = if test_bits (uc.regs.reg_read e core cpsr) 0x20 then 2 else 4 in
      let e1 = uc.regs.reg_write e core pc (u32 (uc.regs.reg_read e core pc + width)) in
      if s.tb_flush_pending then ((s, last), uc.regs.stop e1 core) else ((s, last), e)

  unfoldable pub mmio_write_cb :
      (State → State) → State → ℕ → E → Core → ℕ → ℕ → ℕ → ℕ → (State × ℕ) × E
  unfolding skip_store
  mmio_write_cb apply s last e core base offset size value =
      skip_store
        (bus_write_core apply (count_callback s) last core (callback_addr base offset) size
          (u32 value))
        e core

  -- The word at an address is a software interrupt.
  abbrev pub is_swi : Option ℕ → Bool
  is_swi none = false
  is_swi (some insn) = bit_and insn 0xff000000 == 0xef000000

  -- The return address of the software interrupt at `at`, or just before it.
  unfoldable pub swi_return : E → Core → ℕ → Option ℕ
  swi_return e core at =
      if is_swi (uc.mem_read e core at)
      then some (u32 (at + 4))
      else if leb 4 at && is_swi (uc.mem_read e core (at - 4))
      then some at
      else none

  enter_svc : State → E → Core → Option ℕ → E × Bool
  enter_svc s e core none = (e, false)
  enter_svc s e core (some back) =
      let old = uc.regs.reg_read e core cpsr in
      let vector = if test_bits (s.cachecon 0) 0x10 then s.evp 2 else 0x08 in
      let e1 = uc.regs.reg_write e core cpsr (bit_or (clear_bits old 0x3f) 0x93) in
      let e2 = uc.regs.reg_write e1 core spsr old in
      let e3 = uc.regs.reg_write e2 core lr back in (uc.regs.reg_write e3 core pc vector, true)

  -- enter_swi_exception, and hook_intr, which calls it with the program counter.
  unfoldable pub enter_swi_exception : State → E → Core → ℕ → E × Bool
  unfolding swi_return enter_svc
  enter_swi_exception s e core at = enter_svc s e core (swi_return e core at)

  unfoldable pub hook_intr : State → E → Core → E
  unfolding enter_swi_exception
  hook_intr s e core = (enter_swi_exception s e core (uc.regs.reg_read e core pc)).0
