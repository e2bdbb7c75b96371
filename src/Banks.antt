-- ===== src/Banks.antt =====
-- src/dev_evp.c, dev_usb.c, dev_sysregs.c, dev_devcon.c, dev_ppcon.c, dev_memcon.c, dev_cachecon.c:
-- banks of 32-bit registers with sized accesses, and the few that do more.
mod Tests
use nano1g_unicorn_c.Base.{
  ℕ, ◌+◌, ◌-◌, ◌*◌, ◌/◌, ◌%◌, ◌^◌, Bool, true, false, not, ◌&&◌, ◌||◌, ltb, leb, ◌==◌,
  if◌then◌else◌, bit_and, bit_or, Array, store, Option, some, none,
}
use nano1g_unicorn_c.Word.{u64, clear_bits, test_bits, align4, read_part, merge_write}
use nano1g_unicorn_c.State.{State, Sysregs}

-- What all banks do: an array of `bytes` bytes.
unfoldable pub bank_read : Array ℕ → ℕ → ℕ → ℕ → ℕ
bank_read regs bytes offset size =
    if leb bytes (align4 offset) then 0 else read_part (regs (align4 offset / 4)) offset size

unfoldable pub bank_write : Array ℕ → ℕ → ℕ → ℕ → ℕ → Array ℕ
bank_write regs bytes offset size value =
    let i = align4 offset / 4 in
    if leb bytes (align4 offset)
    then regs
    else store regs i (merge_write (regs i) offset size value)

-- n1g_dev_evp_init, n1g_dev_evp_read and n1g_dev_evp_write: the eight vectors.
unfoldable pub evp_init : State → State
evp_init s = record s { evp = λ i. if ltb i 8 then i * 4 else s.evp i }

unfoldable pub evp_read : State → ℕ → ℕ → ℕ
unfolding bank_read
evp_read s offset size = bank_read s.evp 0x20 offset size

unfoldable pub evp_write : State → ℕ → ℕ → ℕ → State
unfolding bank_write
evp_write s offset size value = record s { evp = bank_write s.evp 0x20 offset size value }

unfoldable pub usb_read : State → ℕ → ℕ → ℕ
unfolding bank_read
usb_read s offset size = bank_read s.usb 0x1000 offset size

unfoldable pub usb_write : State → ℕ → ℕ → ℕ → State
unfolding bank_write
usb_write s offset size value = record s { usb = bank_write s.usb 0x1000 offset size value }

-- The two banks of system registers.
unfoldable pub sysreg_60003000_read : State → ℕ → ℕ → ℕ
unfolding bank_read
sysreg_60003000_read s offset size = bank_read s.sysregs.pp_60003000 0x20 offset size

unfoldable pub sysreg_60003000_write : State → ℕ → ℕ → ℕ → State
unfolding bank_write
sysreg_60003000_write s offset size value = record s {
  sysregs = record s.sysregs {
    pp_60003000 = bank_write s.sysregs.pp_60003000 0x20 offset size value;
  };
}

unfoldable pub sysreg_70003800_read : State → ℕ → ℕ → ℕ
unfolding bank_read
sysreg_70003800_read s offset size = bank_read s.sysregs.periph_70003800 0x100 offset size

unfoldable pub sysreg_70003800_write : State → ℕ → ℕ → ℕ → State
unfolding bank_write
sysreg_70003800_write s offset size value = record s {
  sysregs = record s.sysregs {
    periph_70003800 = bank_write s.sysregs.periph_70003800 0x100 offset size value;
  };
}

-- DEVCON_PLL_LOCKED, DEVCON_PLL_CONTROL and DEVCON_PLL_STATUS.
abbrev pub pll_locked : ℕ
pll_locked = 0x80000000

-- n1g_dev_devcon_read: the PLL always shows its lock.
unfoldable pub devcon_read : State → ℕ → ℕ → ℕ
devcon_read s offset size =
    let aligned = align4 offset in
    let value = s.devcon (aligned / 4) in
    if leb 0x1000 aligned
    then 0
    else read_part (if aligned == 0x3c then bit_or value pll_locked else value) offset size

unfoldable pub devcon_write : State → ℕ → ℕ → ℕ → State
unfolding bank_write
devcon_write s offset size value =
    let regs = bank_write s.devcon 0x1000 offset size value in
    record s {
      devcon =
          if align4 offset == 0x34
          then store regs (0x3c / 4) (bit_or (regs (0x3c / 4)) pll_locked)
          else regs;
    }

-- default_value of dev_ppcon.c: what a register of 0 stands for.
unfoldable pub default_value : ℕ → ℕ
default_value aligned =
    if aligned == 0x00
    then 0x30325050
    else if aligned == 0x04
    then 0x20443032
    else if (aligned == 0x08) || (aligned == 0x0c)
    then 0
    else if aligned == 0x28
    then 0x80
    else if aligned == 0x30
    then 0x08000000
    else 0

unfoldable pub ppcon_value : State → ℕ → ℕ
unfolding default_value
ppcon_value s aligned =
    if s.ppcon (aligned / 4) == 0 then default_value aligned else s.ppcon (aligned / 4)

unfoldable pub ppcon_read : State → ℕ → ℕ → ℕ
unfolding ppcon_value
ppcon_read s offset size =
    if leb 0x2000 (align4 offset) then 0 else read_part (ppcon_value s (align4 offset)) offset size

-- XMB_RAM_SELF_REFRESH_REQUEST shows as XMB_RAM_SELF_REFRESH_STATUS.
unfoldable pub refresh_status : ℕ → ℕ
refresh_status reg =
    let cleared = clear_bits reg 0x40000000 in
    if test_bits cleared 0x00400000 then bit_or cleared 0x40000000 else cleared

unfoldable pub ppcon_write : State → ℕ → ℕ → ℕ → State
unfolding ppcon_value refresh_status
ppcon_write s offset size value =
    let aligned = align4 offset in
    let merged = merge_write (ppcon_value s aligned) offset size value in
    let reg = if aligned == 0x3c then refresh_status merged else merged in
    if leb 0x2000 aligned then s else record s { ppcon = store s.ppcon (aligned / 4) reg }

unfoldable pub memcon_read : State → ℕ → ℕ → ℕ
unfolding bank_read
memcon_read s offset size = bank_read s.memcon 0x10000 offset size

-- Whether a write discards the instruction cache.
unfoldable pub discards_icache : ℕ → ℕ → Bool
discards_icache aligned value =
    (leb 0x4000 aligned && ltb aligned 0x8000) || ((aligned == 0xf044) && test_bits value 4)

-- n1g_dev_memcon_write. `last` is its static variable, ~0 before the first request; the result has
-- its new value. `apply_memmap` is n1g_cpu_apply_memmap, which tells the engine the new map.
unfoldable pub memcon_write : (State → State) → State → ℕ → ℕ → ℕ → ℕ → State × ℕ
unfolding discards_icache
memcon_write apply_memmap s last offset size value =
    let aligned = align4 offset in
    let merged = merge_write (s.memcon (aligned / 4)) offset size value in
    let reg = if aligned == 0xf044 then clear_bits merged 0x6 else merged in
    let t = record s { memcon = store s.memcon (aligned / 4) reg } in
    let u = if leb 0xf000 aligned && leb aligned 0xf03c then apply_memmap t else t in
    let now = u.counters.device_ticks in
    let due = (last == 0xffffffffffffffff) || leb 16 (u64 (now + 2 ^ 64 - last)) in
    let flushed = record u { tb_flush_pending = u.tb_flush_pending || due } in
    if leb 0x10000 aligned
    then (s, last)
    else if discards_icache aligned value
    then (flushed, now)
    else (u, last)

unfoldable pub cachecon_read : State → ℕ → ℕ → ℕ
unfolding bank_read
cachecon_read s offset size = bank_read s.cachecon 0x1000 offset size

-- Every write within the bank asks for the engine's blocks to be dropped.
unfoldable pub cachecon_write : State → ℕ → ℕ → ℕ → State
unfolding bank_write
cachecon_write s offset size value = if leb 0x1000 (align4 offset) then s else record s {
  cachecon = bank_write s.cachecon 0x1000 offset size value;
  tb_flush_pending = true;
}
