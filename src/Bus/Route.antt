-- ===== src/Bus/Route.antt =====
-- The windows of the address map, in the order in which n1g_bus_read tries them.
use nano1g_unicorn_c.Base.{
  ℕ, ◌+◌, Bool, ◌&&◌, ltb, leb, if◌then◌else◌, List, [], ◌∷◌, Option, some, none,
}

pub data Device : Type 0 where
  flash flash_alias cpuid mailbox sysreg_60003000 intc timer devcon cpucon : Device
  dma_secondary dma gpio cachecon evp ppcon sysreg_70003800 lcd2 i2s pwm i2c : Device
  serial0 serial1 opto dimmer eide usb memcon : Device

-- The N1G_..._BASE of map.h.
unfoldable pub base_of : Device → ℕ
base_of flash = 0x00000000
base_of flash_alias = 0x20000000
base_of cpuid = 0x60000000
base_of mailbox = 0x60001000
base_of sysreg_60003000 = 0x60003000
base_of intc = 0x60004000
base_of timer = 0x60005000
base_of devcon = 0x60006000
base_of cpucon = 0x60007000
base_of dma_secondary = 0x60008000
base_of dma = 0x6000a000
base_of gpio = 0x6000d000
base_of cachecon = 0x6000c000
base_of evp = 0x6000f000
base_of ppcon = 0x70000000
base_of sysreg_70003800 = 0x70003800
base_of lcd2 = 0x70008a00
base_of i2s = 0x70002800
base_of pwm = 0x7000a000
base_of i2c = 0x7000c000
base_of serial0 = 0x70006000
base_of serial1 = 0x70006040
base_of opto = 0x7000c100
base_of dimmer = 0x7000c300
base_of eide = 0xc3000000
base_of usb = 0xc5000000
base_of memcon = 0xf0000000

-- The lengths of the windows, from the bus's tests.
unfoldable pub size_of : Device → ℕ
size_of flash = 0x00100000
size_of flash_alias = 0x00100000
size_of cpuid = 0x1000
size_of mailbox = 0x30
size_of sysreg_60003000 = 0x20
size_of intc = 0x200
size_of timer = 0x18
size_of devcon = 0x1000
size_of cpucon = 0x1000
size_of dma_secondary = 0x2000
size_of dma = 0x2000
size_of gpio = 0xa00
size_of cachecon = 0x1000
size_of evp = 0x20
size_of ppcon = 0x2000
size_of sysreg_70003800 = 0x100
size_of lcd2 = 0x200
size_of i2s = 0x100
size_of pwm = 0x40
size_of i2c = 0x100
size_of serial0 = 0x40
size_of serial1 = 0x40
size_of opto = 0x100
size_of dimmer = 0x100
size_of eide = 0x1000
size_of usb = 0x1000
size_of memcon = 0x10000

-- The order of the tests, the same in n1g_bus_read and, but for cpuid, in n1g_bus_write_core.
abbrev pub devices : List Device
devices =
    flash ∷ flash_alias ∷ cpuid ∷ mailbox ∷ sysreg_60003000 ∷ intc ∷ timer ∷ devcon ∷ cpucon
    ∷ dma_secondary ∷ dma ∷ gpio ∷ cachecon ∷ evp ∷ ppcon ∷ sysreg_70003800 ∷ lcd2 ∷ i2s ∷ pwm ∷ i2c
    ∷ serial0 ∷ serial1 ∷ opto ∷ dimmer ∷ eide ∷ usb ∷ memcon ∷ []

abbrev pub is_in : Device → ℕ → Bool
is_in d addr = leb (base_of d) addr && ltb addr (base_of d + size_of d)

-- The first window of a list that has the address.
unfoldable pub find_window : List Device → ℕ → Option Device
find_window [] addr = none
find_window (d ∷ ds) addr = let rest = find_window ds addr in if is_in d addr then some d else rest

unfoldable pub route : ℕ → Option Device
unfolding find_window
route addr = find_window devices addr
