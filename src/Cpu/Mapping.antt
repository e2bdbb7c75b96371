-- ===== src/Cpu/Mapping.antt =====
-- The memory map of the cores: n1g_cpu_map_memory, n1g_cpu_apply_memmap and what they call.
use nano1g_unicorn_c.Base.{
  ℕ, ◌+◌, ◌*◌, Bool, true, false, ◌&&◌, ◌||◌, ◌==◌, if◌then◌else◌, Option, some, none, List, [],
  ◌∷◌, Core, cpu, cop,
}
use nano1g_unicorn_c.State.{
  State, LowMap, low_none, low_ram, low_flash, BootMode, boot_direct, boot_flash,
}
use nano1g_unicorn_c.Ram.{
  is_low_ram, sdram_base, sdram_size, sdram_alias_base, fastram_base, fastram_size,
}
use nano1g_unicorn_c.Flash.{flash_size}
use nano1g_unicorn_c.Memmap.{read_data, write_data, fetch_code}
use nano1g_unicorn_c.Cpu.{Unicorn, Region, sdram, fastram, flash, translate_now}

-- N1G_FLASH_BASE and N1G_FLASH_ALIAS_BASE.
abbrev pub flash_base : ℕ
flash_base = 0

abbrev pub flash_alias_base : ℕ
flash_alias_base = 0x20000000

abbrev pub translates_to : Option ℕ → ℕ → Bool
translates_to none addr = false
translates_to (some translated) addr = translated == addr

abbrev pub is_boot_flash : BootMode → Bool
is_boot_flash boot_flash = true
is_boot_flash boot_direct = false

-- A step that is made where the ones before went well.
abbrev pub and_then {ℓ} : {A : Type ℓ} → A × Bool → (A → A × Bool) → A × Bool
and_then (a, true) f = f a
and_then (a, false) f = (a, false)

-- The low map's names: the size that is mapped at 0.
abbrev pub low_size : LowMap → ℕ
low_size low_flash = flash_size
low_size low_ram = sdram_size
low_size low_none = sdram_size

-- The six windows of devices and the windows of memory besides the one at 0.
abbrev pub windows : List (ℕ × ℕ)
windows =
    (0x60000000, 0x100000)
    ∷ (0x64000000, 0x10000)
    ∷ (0x70000000, 0x10000)
    ∷ (0xc3000000, 0x1000)
    ∷ (0xc5000000, 0x1000)
    ∷ (0xf0000000, 0x10000)
    ∷ []

abbrev pub mirrors : ℕ → List ℕ
mirrors base = base ∷ (base + sdram_size) ∷ (base + 2 * sdram_size) ∷ (base + 3 * sdram_size) ∷ []

-- What the address map asks for: RAM at 0, and the flash at its alias.
unfoldable pub want_low_sdram : State → Bool
want_low_sdram s =
    translates_to (translate_now s 0 read_data) sdram_base
    && (translates_to (translate_now s 0 write_data) sdram_base
        && translates_to (translate_now s 0 fetch_code) sdram_base)

unfoldable pub want_flash_alias : State → Bool
want_flash_alias s =
    translates_to (translate_now s flash_alias_base read_data) flash_base
    && translates_to (translate_now s flash_alias_base fetch_code) flash_base

-- What stands at 0 after the start.
abbrev pub starts_in_flash : State → Bool
starts_in_flash s = is_boot_flash s.opts.boot_mode || s.opts.map_flash_zero || s.opts.virtual_memmap

-- A step that is made where it is asked for.
abbrev pub when {ℓ} : {A : Type ℓ} → Bool → (A → A × Bool) → A → A × Bool
when true f x = f x
when false f x = (x, true)

module _ {E : Type 0} (uc : Unicorn E) where
  -- n1g_cpu_flush_tb.
  unfoldable pub flush_tb : E → E
  flush_tb e = uc.flush (uc.flush e cpu) cop

  -- map_ram_one and map_flash_one_at: the buffer itself, or else a copy.
  unfoldable pub map_one : E → Core → ℕ → ℕ → Region → E × Bool
  map_one e core addr size region =
      let (shared, done) = uc.map_ptr e core addr size region in
      let copied =
        and_then (uc.mem_map shared core addr size) (λ f. uc.mem_write f core addr region) in
      if done then (shared, true) else copied

  -- A round of remap_low0. It is called for RAM only.
  unfoldable pub remap_core : ℕ → E → Core → E × Bool
  unfolding map_one
  remap_core old_size e core =
      and_then (uc.unmap e core flash_base old_size)
        (λ f. map_one f core flash_base sdram_size sdram)

  -- remap_low0 to RAM.
  unfoldable pub remap_low0 : State × E → (State × E) × Bool
  unfolding remap_core flush_tb
  remap_low0 (s, e) =
      let (f, done) =
        and_then (remap_core (low_size s.low0_map) e cpu)
          (λ f. remap_core (low_size s.low0_map) f cop) in
      if is_low_ram s.low0_map
      then ((s, e), true)
      else if done
      then ((record s { low0_map = low_ram }, flush_tb f), true)
      else ((s, f), false)

  -- map_flash_alias.
  unfoldable pub map_flash_alias : State × E → (State × E) × Bool
  unfolding map_one flush_tb
  map_flash_alias (s, e) =
      let (f, done) =
        and_then (map_one e cpu flash_alias_base flash_size flash)
          (λ f. map_one f cop flash_alias_base flash_size flash) in
      if s.flash_alias_mapped
      then ((s, e), true)
      else if done
      then ((record s { flash_alias_mapped = true }, flush_tb f), true)
      else ((s, f), false)

  -- n1g_cpu_apply_memmap.
  unfoldable pub apply_memmap : State × E → (State × E) × Bool
  apply_memmap (s, e) =
      if s.opts.virtual_memmap
      then ((s, flush_tb e), true)
      else and_then (when (want_low_sdram s) remap_low0 (s, e))
          (when (want_flash_alias s) map_flash_alias)

  -- A row of map_ram_one and of map_mmio.
  unfoldable pub map_all : List ℕ → Core → E → E × Bool
  unfolding map_one
  map_all [] core e = (e, true)
  map_all (addr ∷ addrs) core e =
      and_then (map_one e core addr sdram_size sdram) (map_all addrs core)

  -- map_mmio's context is allocated; there is room for 32 of them, and the two cores take 12.
  unfoldable pub map_devices : List (ℕ × ℕ) → Core → E → E × Bool
  map_devices [] core e = (e, true)
  map_devices ((base, size) ∷ rest) core e =
      and_then (uc.mmio_map e core base size) (map_devices rest core)

  unfoldable pub map_low0 : Core → State × E → (State × E) × Bool
  unfolding map_one
  map_low0 core (s, e) =
      let in_flash = map_one e core flash_base flash_size flash in
      let in_ram = map_one e core 0 sdram_size sdram in
      if starts_in_flash s
      then ((if in_flash.1 then record s { low0_map = low_flash } else s, in_flash.0), in_flash.1)
      else ((if in_ram.1 then record s { low0_map = low_ram } else s, in_ram.0), in_ram.1)

  abbrev pub with_state : State → E × Bool → (State × E) × Bool
  with_state s (e, done) = ((s, e), done)

  -- A round of n1g_cpu_map_memory.
  unfoldable pub map_core : Core → State × E → (State × E) × Bool
  unfolding map_all map_low0 map_devices
  map_core core (s, e) =
      and_then (and_then (with_state s (map_all (mirrors sdram_base) core e)) (map_low0 core)) (λ x.
        with_state x.0 (
          and_then
            (and_then
              (map_all (0x02000000 ∷ 0x04000000 ∷ 0x06000000 ∷ mirrors sdram_alias_base) core x.1)
              (λ f. map_one f core fastram_base fastram_size fastram))
            (map_devices windows core)))

  -- n1g_cpu_map_memory.
  unfoldable pub map_memory : State → E → (State × E) × Bool
  unfolding map_core
  map_memory s e = and_then (map_core cpu (s, e)) (map_core cop)
