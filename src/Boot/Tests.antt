-- ===== src/Boot/Tests.antt =====
-- A boot from the flash, and one whose file is missing.
use nano1g_unicorn_c.Base.{◌≡◌, ◌⊎◌, refl, arith, true, false, none, cpu}
use nano1g_unicorn_c.State.{State, boot_flash}
use nano1g_unicorn_c.Sample.{idle, idle_opts}
use nano1g_unicorn_c.Sample.File.{Table, file, file-IsFaithful}
use nano1g_unicorn_c.Intc.{pc, cpsr}
use nano1g_unicorn_c.Firmware.{load_firmware}
use nano1g_unicorn_c.Boot.{start_of, load_for, boot_reset}
use nano1g_unicorn_c.Boot.Start.{boot_reset_lem}

abbrev from_flash : State
from_flash = record idle { opts = record idle_opts { boot_mode = boot_flash } }

abbrev blank : Table
blank core r = 0

at_flash : start_of from_flash ≡ 0
unfolding start_of
at_flash = refl

nothing_to_load : load_for boot_flash from_flash none ≡ (from_flash, true)
unfolding load_for
nothing_to_load = refl

boot_reset_lem_example :
    ((true ≡ true)
      × ((boot_reset file from_flash none blank).1 ≡ true)
      × (file.reg_read (boot_reset file from_flash none blank).0.1 cpu pc ≡ start_of from_flash)
      × (file.reg_read (boot_reset file from_flash none blank).0.1 cpu cpsr ≡ 0xd3)
      × ((boot_reset file from_flash none blank).0.0.cpu.at1.halted ≡ true)
      × ((boot_reset file from_flash none blank).0.0.cpu.at0 ≡ from_flash.cpu.at0))
    ⊎ ((true ≡ false) × (boot_reset file from_flash none blank ≡ ((from_flash, blank), false)))
boot_reset_lem_example =
    boot_reset_lem file file-IsFaithful from_flash none blank cpu from_flash true nothing_to_load
      (omega (arith, at_flash))

missing_file : (boot_reset file idle none blank).1 ≡ false
unfolding boot_reset load_for load_firmware
missing_file = refl
