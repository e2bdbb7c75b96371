-- ===== src/Cpu/Tests.antt =====
-- A software interrupt at 0x100, and the memory map of a machine after power-up.
use nano1g_unicorn_c.Base.{◌≡◌, refl, arith, inl, true, false, none, cpu, cop, ◌==◌, if◌then◌else◌}
use nano1g_unicorn_c.State.{State, low_ram, low_flash}
use nano1g_unicorn_c.Sample.{idle}
use nano1g_unicorn_c.Sample.File.{Table, file-IsFaithful}
use nano1g_unicorn_c.Sample.Library.{library}
use nano1g_unicorn_c.Sample.Memory.{Shown, memory, shown, memory-IsMapping}
use nano1g_unicorn_c.Cpu.Remap.{IsBacked}
use nano1g_unicorn_c.Cpu.Started.{map_memory-IsBacked}
use nano1g_unicorn_c.Intc.{pc, lr, cpsr, gpr}
use nano1g_unicorn_c.Cpu.{
  enter_swi_exception, current_mmaps, hook_tlb_fill, mem_other, get_gpr, set_gpr,
}
use nano1g_unicorn_c.Memmap.{translate, entry_matches, decode, translate_addr}
use nano1g_unicorn_c.Cpu.Mapping.{
  want_low_sdram, want_flash_alias, apply_memmap, map_memory, remap_low0, map_flash_alias,
}
use nano1g_unicorn_c.Cpu.Swi.{swi_vector, svc_cpsr, swi_entry}
use nano1g_unicorn_c.Cpu.Apply.{IsApplied, apply_memmap-again}

abbrev user_mode : Table
user_mode core cpsr = 0x10
user_mode core r = 0

swi_entry_example :
    ((enter_swi_exception library idle user_mode cpu 0x100).1 ≡ true)
    × ((library.regs.reg_read (enter_swi_exception library idle user_mode cpu 0x100).0 cpu pc)
        ≡ swi_vector idle)
    × ((library.regs.reg_read (enter_swi_exception library idle user_mode cpu 0x100).0 cpu lr)
        ≡ 0x104)
    × ((library.regs.reg_read (enter_swi_exception library idle user_mode cpu 0x100).0 cpu cpsr)
        ≡ svc_cpsr 0x10)
    × ((library.regs.reg_read (enter_swi_exception library idle user_mode cpu 0x100).0 cop (gpr 4))
        ≡ 0)
swi_entry_example =
    swi_entry library file-IsFaithful idle user_mode cpu 0x100 0x100 (gpr 4) (omega arith)
      (omega arith) refl (inl refl)

entered : svc_cpsr 0x10 ≡ 0x93
entered = refl

-- A machine that starts with the flash at 0 and whose registers send address 0 to the SDRAM, and the
-- flash's alias to the flash.
abbrev remapped : State
remapped = record idle {
  memcon = λ i.
      if i == 0x3c00
      then 0x3ff0
      else if i == 0x3c01
      then 0x10000f00
      else if i == 0x3c02
      then 0x20003ff0
      else if i == 0x3c03
      then 0xd00
      else 0;
  opts = record idle.opts { map_flash_zero = true };
}

abbrev nothing : Shown
nothing core addr = none

-- The machine after the start, with the flash at 0.
abbrev booted : State × Shown
booted = (map_memory memory remapped nothing).0

starts_up : (map_memory memory remapped nothing).1 ≡ true
unfolding map_memory
starts_up = refl

booted-IsBacked : IsBacked memory shown booted.0 booted.1
booted-IsBacked = map_memory-IsBacked memory shown memory-IsMapping remapped nothing refl starts_up

in_flash : booted.0.low0_map ≡ low_flash
unfolding map_memory
in_flash = refl

direct : booted.0.opts.virtual_memmap ≡ false
unfolding map_memory
direct = refl

applied : (apply_memmap memory booted).1 ≡ true
unfolding apply_memmap remap_low0 map_flash_alias map_memory want_low_sdram want_flash_alias
    translate current_mmaps entry_matches decode translate_addr
applied = refl

apply_memmap-again_example :
    let (t, f) = (apply_memmap memory booted).0 in
    IsApplied memory shown t f
    × IsBacked memory shown t f
    × (apply_memmap memory (t, f) ≡ ((t, f), true))
apply_memmap-again_example =
    apply_memmap-again memory shown booted.0 booted.1 memory-IsMapping booted-IsBacked direct
      applied

-- A direct boot starts with RAM at 0.
starts : (map_memory library idle user_mode).0.0.low0_map ≡ low_ram
unfolding map_memory
starts = refl

no_fill : hook_tlb_fill idle 0x1000 mem_other ≡ none
unfolding hook_tlb_fill
no_fill = refl

kept : get_gpr library (set_gpr library user_mode cop 13 7) cop 13 ≡ 7
unfolding get_gpr set_gpr
kept = refl

ignored : get_gpr library user_mode cop 16 ≡ 0
unfolding get_gpr
ignored = refl
