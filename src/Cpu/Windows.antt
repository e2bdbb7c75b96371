-- ===== src/Cpu/Windows.antt =====
-- The address map of the bus and the windows that the processor calls back for.
use nano1g_unicorn_c.Base.{
  ℕ, ◌+◌, ◌≡◌, ◌≢◌, refl, arith, Bool, true, false, ◌&&◌, ◌||◌, ltb, leb, List, [], ◌∷◌,
}
use nano1g_unicorn_c.Bus.Route.{Device, flash, flash_alias, base_of, size_of, is_in}
use nano1g_unicorn_c.Cpu.Mapping.{windows}

-- An address lies in one of some windows.
abbrev in_windows : List (ℕ × ℕ) → ℕ → Bool
in_windows [] addr = false
in_windows ((base, size) ∷ rest) addr =
    (leb base addr && ltb addr (base + size)) || in_windows rest addr

-- Every register has its callback: an address of a device's window, other than the two of the flash,
-- lies in one of the windows that n1g_cpu_map_memory maps for callbacks.
registers_are_mapped :
    (d : Device) (addr : ℕ)
    → d ≢ flash
    → d ≢ flash_alias
    → is_in d addr ≡ true
    → in_windows windows addr ≡ true
unfolding base_of size_of
registers_are_mapped flash addr a b h = absurd (a refl)
registers_are_mapped flash_alias addr a b h = absurd (b refl)
registers_are_mapped d addr a b h = ground arith
