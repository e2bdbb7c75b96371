-- ===== src/Memmap.antt =====
-- src/memmap.c: the PP502x address map, eight pairs of registers that redirect the low addresses.
pub mod Page
mod Tests
use nano1g_unicorn_c.Base.{
  ℕ, ◌*◌, ◌^◌, Bool, true, false, not, ◌&&◌, ◌||◌, leb, ◌==◌, if◌then◌else◌, bit_and, bit_or,
  Option, some, none, List, [], ◌∷◌,
}
use nano1g_unicorn_c.Word.{shl32, clear_bits, test_bits}

-- n1g_mmap_access_t.
pub data Access : Type 0 where
  read_data write_data fetch_code : Access

-- n1g_mmap_entry_t.
pub record Entry : Type 0 where
  pub mask : ℕ
  pub match_bits : ℕ
  pub target : ℕ
  pub enabled : Bool
  pub read : Bool
  pub write : Bool
  pub data_side : Bool
  pub code_side : Bool

abbrev pub mask_bits : ℕ
mask_bits = 0x3fff

abbrev pub addr_bits : ℕ
addr_bits = 0x3fff0000

-- N1G_FASTRAM_BASE.
abbrev pub fastram_base : ℕ
fastram_base = 0x40000000

unfoldable pub decode : ℕ → ℕ → Entry
decode mask_reg target_reg =
    let mask = shl32 (bit_and mask_reg mask_bits) 16 in
    let read = test_bits target_reg 0x100 in
    let write = test_bits target_reg 0x200 in
    let data_side = test_bits target_reg 0x800 in
    let code_side = test_bits target_reg 0x400 in
    record {
      mask = mask;
      match_bits = bit_and mask_reg addr_bits;
      target = bit_and target_reg addr_bits;
      enabled = not (mask == 0) && ((read || write) && (data_side || code_side));
      read = read;
      write = write;
      data_side = data_side;
      code_side = code_side;
    }

unfoldable pub access_matches : Entry → Access → Bool
access_matches e read_data = e.read && e.data_side
access_matches e write_data = e.write && e.data_side
access_matches e fetch_code = e.read && e.code_side

-- The entries are never NULL here.
unfoldable pub entry_matches : Entry → ℕ → Access → Bool
unfolding access_matches
entry_matches e addr access =
    if leb fastram_base addr
    then false
    else if not e.enabled || not (access_matches e access)
    then false
    else bit_and addr e.mask == bit_and e.match_bits e.mask

unfoldable pub translate_addr : Entry → ℕ → ℕ
translate_addr e addr = bit_or (clear_bits addr e.mask) (bit_and e.target e.mask)

-- n1g_mmap_translate; `none` where it returns false.
unfoldable pub translate : List Entry → ℕ → Access → Option ℕ
translate [] addr access = none
translate (e ∷ entries) addr access =
    let rest = translate entries addr access in
    if entry_matches e addr access then some (translate_addr e addr) else rest
