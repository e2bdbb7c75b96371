-- ===== src/Memmap/Tests.antt =====
-- The address map with one entry: the flash's addresses of 1 MiB, redirected to the SDRAM.
use nano1g_unicorn_c.Base.{ℕ, ◌%◌, ◌^◌, ◌<◌, ◌≡◌, refl, some, List, [], ◌∷◌}
use nano1g_unicorn_c.Memmap.{
  translate, entry_matches, decode, translate_addr, fetch_code, fastram_base,
}
use nano1g_unicorn_c.Memmap.Page.{decode_all, translate-page}

abbrev remap : List (ℕ × ℕ)
remap = (0x00003ff0, 0x10000f00) ∷ []

remap_code : translate (decode_all remap) 0x12344 fetch_code ≡ some 0x10012344
unfolding translate entry_matches decode translate_addr
remap_code = refl

translate-page_example :
    (0x12344 < fastram_base)
    × (0x10012344 < fastram_base)
    × (0x10012344 % 2 ^ 16 ≡ 0x12344 % 2 ^ 16)
translate-page_example = translate-page remap 0x12344 fetch_code 0x10012344 remap_code
