-- ===== src/Serial/Tests.antt =====
-- The UARTs on concrete accesses.
use nano1g_unicorn_c.Base.{◌≡◌, cop, refl, arith}
use nano1g_unicorn_c.Irq.{HoldWords, drive_hi}
use nano1g_unicorn_c.Sample.{idle}
use nano1g_unicorn_c.Serial.{serial_write, serial_tick, serial_iir, serial_update_irq, uart_write}
use nano1g_unicorn_c.Serial.Line.{IsSynced, serial_write-IsSynced}

idle-HoldWords : HoldWords idle.intc
idle-HoldWords = record {
  cpu_in = omega arith;
  cop_in = omega arith;
  hi_cpu_in = omega arith;
  hi_cop_in = omega arith;
}

idle-IsSynced : IsSynced idle
unfolding serial_iir
idle-IsSynced = record { words = idle-HoldWords; line0 = (refl, refl); line1 = (refl, refl) }

-- The transmitter's interrupt, enabled by the second UART's register 4.
serial_write-IsSynced_example : IsSynced (serial_write idle cop 0x04 0x02)
serial_write-IsSynced_example = serial_write-IsSynced idle cop 0x04 0x02 idle-IsSynced

serial_write_raises : (serial_write idle cop 0x04 0x02).intc.hi_cpu_status ≡ 0x20
unfolding serial_write serial_update_irq uart_write serial_iir drive_hi
serial_write_raises = refl

tick_drops : (serial_tick idle).intc.hi_cop_status ≡ 0
unfolding serial_tick serial_update_irq serial_iir drive_hi
tick_drops = refl
