-- ===== src/Ram/Tests.antt =====
-- The memories' theorems at concrete addresses.
use nano1g_unicorn_c.Base.{◌≡◌, refl, arith, some, inr, ◌+◌, ◌≤◌}
use nano1g_unicorn_c.State.{State}
use nano1g_unicorn_c.Sample.{idle}
use nano1g_unicorn_c.Ram.{ram_ptr, ram_read, ram_write, into_sdram, sdram_size}
use nano1g_unicorn_c.Ram.Bounds.{ram_ptr-InBounds}
use nano1g_unicorn_c.Ram.RoundTrip.{ram_read-ram_write, ram_read-ram_write_ne}

ram_ptr-InBounds_example : 0x1fffffe + 2 ≤ sdram_size
ram_ptr-InBounds_example =
    ram_ptr-InBounds idle 0x13fffffe 2 {p = into_sdram 0x1fffffe} (omega arith) (omega arith)
      (omega arith) (unfold ram_ptr in refl)

-- Written through the first window, read through the third mirror of the other.
ram_read-ram_write_example :
    (s' : State) × (ram_write idle 0x10000010 2 0x12345678 ≡ some s')
    × (ram_read s' 0x94000010 2 ≡ some 0x5678)
ram_read-ram_write_example =
    ram_read-ram_write idle 0x10000010 0x94000010 2 0x12345678 {p = into_sdram 16} (omega arith)
      (unfold ram_ptr in refl) (unfold ram_ptr in refl)

ram_read-ram_write_ne_example :
    (s' : State) × (ram_write idle 0x10000010 2 0x12345678 ≡ some s')
    × (ram_read s' 0x90000012 2 ≡ ram_read idle 0x90000012 2)
ram_read-ram_write_ne_example =
    ram_read-ram_write_ne idle 0x10000010 2 0x12345678 0x90000012 2 {p = into_sdram 16}
      {q = into_sdram 18} (unfold ram_ptr in refl) (unfold ram_ptr in refl) (inr (omega arith))
