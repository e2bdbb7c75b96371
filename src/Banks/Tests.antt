-- ===== src/Banks/Tests.antt =====
-- The register banks on concrete accesses.
use nano1g_unicorn_c.Base.{◌≡◌, refl}
use nano1g_unicorn_c.Word.{read_part, merge_write, mask_for_size}
use nano1g_unicorn_c.Sample.{idle}
use nano1g_unicorn_c.Banks.{
  bank_read, devcon_read, evp_init, evp_read, ppcon_read, ppcon_write, ppcon_value, default_value,
  refresh_status,
}

pll_is_locked : devcon_read idle 0x3c 4 ≡ 0x80000000
unfolding devcon_read read_part mask_for_size
pll_is_locked = refl

fast_vector : evp_read (evp_init idle) 0x1c 4 ≡ 0x1c
unfolding evp_read evp_init bank_read read_part mask_for_size
fast_vector = refl

-- The request for self refresh shows as done.
refresh_shows : ppcon_read (ppcon_write idle 0x3c 4 0x00400000) 0x3c 4 ≡ 0x40400000
unfolding ppcon_read ppcon_write ppcon_value default_value refresh_status read_part merge_write
    mask_for_size
refresh_shows = refl
