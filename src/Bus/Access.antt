-- ===== src/Bus/Access.antt =====
-- n1g_bus_read, n1g_bus_write_core and n1g_bus_tick: RAM first, then the device of the address.
use nano1g_unicorn_c.Base.{ℕ, ◌+◌, ◌-◌, Option, some, none, Core, cpu, cop}
use nano1g_unicorn_c.Word.{u64}
use nano1g_unicorn_c.State.{State}
use nano1g_unicorn_c.Ram.{ram_read, ram_write}
use nano1g_unicorn_c.Flash.{flash_read, flash_write}
use nano1g_unicorn_c.Mailbox.{mask_value, mailbox_read, mailbox_write}
use nano1g_unicorn_c.Intc.{Engine, intc_read, intc_write, intc_tick}
use nano1g_unicorn_c.Timer.{timer_read, timer_write, timer_tick}
use nano1g_unicorn_c.Cpucon.{cpucon_read, cpucon_write, cpucon_tick}
use nano1g_unicorn_c.Disk.Registers.{disk_read, disk_write, disk_tick}
use nano1g_unicorn_c.Banks.{
  evp_read, evp_write, usb_read, usb_write, sysreg_60003000_read, sysreg_60003000_write,
  sysreg_70003800_read, sysreg_70003800_write, devcon_read, devcon_write, ppcon_read, ppcon_write,
  memcon_read, memcon_write, cachecon_read, cachecon_write,
}
use nano1g_unicorn_c.Serial.{serial_read, serial_write, serial_tick}
use nano1g_unicorn_c.I2s.{i2s_read, i2s_write, i2s_tick}
use nano1g_unicorn_c.I2c.Port.{i2c_read, i2c_write}
use nano1g_unicorn_c.I2c.Tick.{i2c_tick}
use nano1g_unicorn_c.Opto.{opto_read, opto_write, opto_tick}
use nano1g_unicorn_c.Backlight.{pwm_read, pwm_write, dimmer_read, dimmer_write}
use nano1g_unicorn_c.Gpio.{gpio_read, gpio_write}
use nano1g_unicorn_c.Lcd2.{lcd2_read, lcd2_write}
use nano1g_unicorn_c.Dma.Port.{
  dma_read, dma_write, dma_secondary_read, dma_secondary_write, dma_tick,
}
use nano1g_unicorn_c.Bus.Route.{
  Device, flash, flash_alias, cpuid, mailbox, sysreg_60003000, intc, timer, devcon, cpucon,
  dma_secondary, dma, gpio, cachecon, evp, ppcon, sysreg_70003800, lcd2, i2s, pwm, i2c, serial0,
  serial1, opto, dimmer, eide, usb, memcon, base_of, route,
}

abbrev pub count_read : State → State
count_read s = record s {
  counters = record s.counters { mmio_reads = u64 (s.counters.mmio_reads + 1) };
}

abbrev pub count_write : State → State
count_write s = record s {
  counters = record s.counters { mmio_writes = u64 (s.counters.mmio_writes + 1) };
}

abbrev cpuid_value : Core → ℕ
cpuid_value cpu = 0x55555555
cpuid_value cop = 0xaaaaaaaa

-- The access of a device's register, at the offset in its window.
unfoldable pub device_read : Device → State → Core → ℕ → ℕ → ℕ × State
device_read flash s core offset size = (flash_read s offset size, s)
device_read flash_alias s core offset size = (flash_read s offset size, s)
device_read cpuid s core offset size = (mask_value (cpuid_value core) size, s)
device_read mailbox s core offset size = mailbox_read s core offset size
device_read sysreg_60003000 s core offset size = (sysreg_60003000_read s offset size, s)
device_read intc s core offset size = (intc_read s offset size, s)
device_read timer s core offset size = timer_read s offset size
device_read devcon s core offset size = (devcon_read s offset size, s)
device_read cpucon s core offset size = (cpucon_read s offset, s)
device_read dma_secondary s core offset size = (dma_secondary_read s offset, s)
device_read dma s core offset size = dma_read s offset
device_read gpio s core offset size = (gpio_read s offset size, s)
device_read cachecon s core offset size = (cachecon_read s offset size, s)
device_read evp s core offset size = (evp_read s offset size, s)
device_read ppcon s core offset size = (ppcon_read s offset size, s)
device_read sysreg_70003800 s core offset size = (sysreg_70003800_read s offset size, s)
device_read lcd2 s core offset size = (lcd2_read s offset, s)
device_read i2s s core offset size = (i2s_read s offset, s)
device_read pwm s core offset size = (pwm_read s.backlight offset size, s)
device_read i2c s core offset size = i2c_read s offset size
device_read serial0 s core offset size = serial_read s cpu offset size
device_read serial1 s core offset size = serial_read s cop offset size
device_read opto s core offset size = (opto_read s offset size, s)
device_read dimmer s core offset size =
    let (value, b) = dimmer_read s.backlight offset size in (value, record s { backlight = b })
device_read eide s core offset size = disk_read s offset size
device_read usb s core offset size = (usb_read s offset size, s)
device_read memcon s core offset size = (memcon_read s offset size, s)

-- A read that no device answers is counted.
abbrev pub read_routed : Option Device → State → Core → ℕ → ℕ → ℕ × State
read_routed (some d) t core addr size = device_read d t core (addr - base_of d) size
read_routed none t core addr size = (
  0,
  record t {
    counters = record t.counters { unrouted_mmio_reads = u64 (t.counters.unrouted_mmio_reads + 1) };
  },
)

-- RAM's answer, or the devices'.
abbrev pub answer_read : Option ℕ → State → ℕ × State → ℕ × State
answer_read (some value) t other = (value, t)
answer_read none t other = other

unfoldable pub bus_read : State → Core → ℕ → ℕ → ℕ × State
bus_read s core addr size =
    let t = count_read s in
    answer_read (ram_read t addr size) t (read_routed (route addr) t core addr size)

abbrev unrouted_write : State → State
unrouted_write t = record t {
  counters = record t.counters { unrouted_mmio_writes = u64 (t.counters.unrouted_mmio_writes + 1) };
}

abbrev pub answer_write : Option State → ℕ → State × ℕ → State × ℕ
answer_write (some u) last other = (u, last)
answer_write none last other = other

module _ (apply_memmap : State → State) where
  -- A write of a device's register; `last` is the static variable of n1g_dev_memcon_write. The
  -- processors' numbers are not written: such a write is one that no device takes.
  unfoldable pub device_write : Device → State → ℕ → Core → ℕ → ℕ → ℕ → State × ℕ
  device_write flash s last core offset size value = (flash_write s offset size value, last)
  device_write flash_alias s last core offset size value = (flash_write s offset size value, last)
  device_write cpuid s last core offset size value = (unrouted_write s, last)
  device_write mailbox s last core offset size value = (mailbox_write s core offset value, last)
  device_write sysreg_60003000 s last core offset size value =
      (sysreg_60003000_write s offset size value, last)
  device_write intc s last core offset size value = (intc_write s offset value, last)
  device_write timer s last core offset size value = (timer_write s offset size value, last)
  device_write devcon s last core offset size value = (devcon_write s offset size value, last)
  device_write cpucon s last core offset size value = (cpucon_write s offset value, last)
  device_write dma_secondary s last core offset size value =
      (dma_secondary_write s offset value, last)
  device_write dma s last core offset size value = (dma_write s offset value, last)
  device_write gpio s last core offset size value = (gpio_write s offset size value, last)
  device_write cachecon s last core offset size value = (cachecon_write s offset size value, last)
  device_write evp s last core offset size value = (evp_write s offset size value, last)
  device_write ppcon s last core offset size value = (ppcon_write s offset size value, last)
  device_write sysreg_70003800 s last core offset size value =
      (sysreg_70003800_write s offset size value, last)
  device_write lcd2 s last core offset size value = (lcd2_write s offset value, last)
  device_write i2s s last core offset size value = (i2s_write s offset size value, last)
  device_write pwm s last core offset size value = (
    record s { backlight = pwm_write s.backlight s.counters.device_ticks offset size value },
    last,
  )
  device_write i2c s last core offset size value = (i2c_write s offset size value, last)
  device_write serial0 s last core offset size value = (serial_write s cpu offset value, last)
  device_write serial1 s last core offset size value = (serial_write s cop offset value, last)
  device_write opto s last core offset size value = (opto_write s offset value, last)
  device_write dimmer s last core offset size value =
      (record s { backlight = dimmer_write s.backlight offset size value }, last)
  device_write eide s last core offset size value = (disk_write s offset size value, last)
  device_write usb s last core offset size value = (usb_write s offset size value, last)
  device_write memcon s last core offset size value =
      memcon_write apply_memmap s last offset size value

  abbrev pub write_routed : Option Device → State → ℕ → Core → ℕ → ℕ → ℕ → State × ℕ
  write_routed (some d) t last core addr size value =
      device_write d t last core (addr - base_of d) size value
  write_routed none t last core addr size value = (unrouted_write t, last)

  unfoldable pub bus_write_core : State → ℕ → Core → ℕ → ℕ → ℕ → State × ℕ
  bus_write_core s last core addr size value =
      let t = count_write s in
      answer_write (ram_write t addr size value) last
        (write_routed (route addr) t last core addr size value)

  -- n1g_bus_write is the first core's.
  unfoldable pub bus_write : State → ℕ → ℕ → ℕ → ℕ → State × ℕ
  unfolding bus_write_core
  bus_write s last addr size value = bus_write_core s last cpu addr size value

-- The devices' ticks before the interrupt controller's, in the order of n1g_bus_tick.
unfoldable pub tick_devices : State → State
tick_devices s =
    let t = record s {
      counters = record s.counters { device_ticks = u64 (s.counters.device_ticks + 1) };
    } in
    disk_tick
      (cpucon_tick (serial_tick (dma_tick (i2s_tick (i2c_tick (timer_tick (opto_tick t)))))))

unfoldable pub bus_tick : {E : Type 0} → Engine E → State → E → State × E
unfolding tick_devices
bus_tick engine s e = intc_tick engine (tick_devices s) e
