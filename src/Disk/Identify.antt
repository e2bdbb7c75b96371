-- ===== src/Disk/Identify.antt =====
-- src/disk_ata.c: the IDENTIFY DEVICE answer, and the words of a sector buffer.
use Prim.Native.String.{String}
use Prim.Native.Char.{code}
use nano1g_unicorn_c.Base.{
  ℕ, ◌+◌, ◌*◌, ◌/◌, ◌^◌, Bool, ◌&&◌, ltb, leb, ◌==◌, if◌then◌else◌, bit_and, bit_or, bit_xor, Array,
  store, List, [], ◌∷◌,
}
use nano1g_unicorn_c.Word.{u8, u16, shr32}
use nano1g_unicorn_c.State.{State}

-- The bytes of a text, which is ASCII here.
abbrev pub codes : String → List ℕ
codes String.[] = []
codes (String.◌∷◌ c s) = code c ∷ codes s

unfoldable pub set_word : Array ℕ → ℕ → ℕ → Array ℕ
set_word buf index value =
    store (store buf (index * 2) (bit_and value 0xff)) (index * 2 + 1) (u8 (shr32 value 8))

unfoldable pub get_word : Array ℕ → ℕ → ℕ
get_word buf index = bit_or (buf (index * 2)) (buf (index * 2 + 1) * 2 ^ 8)

-- disk_sector_count, of the image's size: at least 1, and no more than 28 bits count.
unfoldable pub sector_count_of : ℕ → ℕ
sector_count_of size =
    let sectors = size / 512 in
    let at_least = if sectors == 0 then 1 else sectors in
    if ltb 0x0fffffff at_least then 0x0fffffff else at_least

unfoldable pub disk_sector_count : State → ℕ
disk_sector_count s = sector_count_of s.disk.size

unfoldable pub lba_in_range : State → ℕ → Bool
unfolding disk_sector_count
lba_in_range s lba = ltb lba (disk_sector_count s)

-- The loop over the characters, from number i on: it stops at the end of the text or of the field.
place_text : Array ℕ → ℕ → ℕ → ℕ → List ℕ → Array ℕ
place_text buf word_index byte_count i [] = buf
place_text buf word_index byte_count i (c ∷ text) =
    let dst = bit_xor (word_index * 2 + i) 1 in
    let buf' = if ltb i byte_count then store buf dst c else buf in
    place_text buf' word_index byte_count (i + 1) text

unfoldable pub set_ata_string : Array ℕ → ℕ → ℕ → List ℕ → Array ℕ
unfolding place_text
set_ata_string buf word_index word_count text =
    let byte_count = word_count * 2 in
    let from = word_index * 2 in
    let spaces : Array ℕ = λ j. if leb from j && ltb j (from + byte_count) then b' ' else buf j in
    place_text spaces word_index byte_count 0 text

-- The constant words after the strings, in the order of the code.
set_words : Array ℕ → List (ℕ × ℕ) → Array ℕ
unfolding set_word
set_words buf [] = buf
set_words buf ((i, v) ∷ rest) = set_words (set_word buf i v) rest

unfoldable pub identify_data : ℕ → ℕ → Array ℕ
unfolding set_words set_ata_string
identify_data sectors multiple_count =
    let low = bit_and sectors 0xffff in
    let high = u16 (shr32 sectors 16) in
    let head =
      set_words (λ _. 0)
        ((0, 0x0040) ∷ (1, 16383) ∷ (3, 16) ∷ (4, 63 * 512) ∷ (5, 512) ∷ (6, 63) ∷ []) in
    let named =
      set_ata_string
        (set_ata_string (set_ata_string head 10 10 (codes "NANO1G0001")) 23 4 (codes "0.1")) 27 20
        (codes "NANO1G UNICORN DISK") in
    set_words named (
      (47, 0x8001)
      ∷ (49, 0x0700)
      ∷ (51, 0x0200)
      ∷ (52, 0x0200)
      ∷ (53, 0x0003)
      ∷ (54, 16383)
      ∷ (55, 16)
      ∷ (56, 63)
      ∷ (57, low)
      ∷ (58, high)
      ∷ (59, bit_or 0x0100 multiple_count)
      ∷ (60, low)
      ∷ (61, high)
      ∷ (63, 0x0007)
      ∷ (64, 0x0007)
      ∷ (65, 120)
      ∷ (66, 120)
      ∷ (67, 120)
      ∷ (68, 120)
      ∷ (80, 0x001e)
      ∷ (83, 0x4000)
      ∷ [])

unfoldable pub build_identify : State → State
unfolding identify_data disk_sector_count
build_identify s = record s {
  disk = record s.disk { identify = identify_data (disk_sector_count s) s.disk.multiple_count };
}
