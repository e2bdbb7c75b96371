-- ===== src/Disk/Pio.antt =====
-- src/disk_ata.c: data words read and written by the processor.
use nano1g_unicorn_c.Base.{
  ℕ, ◌+◌, ◌-◌, ◌*◌, ◌/◌, ◌^◌, Bool, true, false, not, ◌&&◌, ◌||◌, ltb, leb, ◌==◌, if◌then◌else◌,
  bit_and, bit_or, Array, store, Option, some, none,
}
use nano1g_unicorn_c.Word.{u8, u16, u32, u64, shl32, shr32, test_bits}
use nano1g_unicorn_c.State.{
  State, Transfer, transfer_none, transfer_identify, transfer_read, transfer_write,
  transfer_dma_read, transfer_dma_write,
}
use nano1g_unicorn_c.Disk.Identify.{get_word, lba_in_range}
use nano1g_unicorn_c.Disk.Control.{
  finish_transfer, schedule_pio_data, schedule_pio_completion, schedule_nondata_command,
  error_id_not_found,
}

-- The word at a byte offset of the image: 0xffff outside it, or with no image.
unfoldable pub image_word : Option (Array ℕ) → ℕ → ℕ → ℕ
image_word none size off = 0xffff
image_word (some d) size off =
    if ltb (off + 1) size then bit_or (d off) (d (off + 1) * 2 ^ 8) else 0xffff

unfoldable pub read_identify_word : State → ℕ × State
unfolding finish_transfer
read_identify_word s =
    let out = get_word s.disk.identify (s.disk.data_index / 2) in
    let t = record s { disk = record s.disk { data_index = u16 (s.disk.data_index + 2) } } in
    (out, if leb 512 t.disk.data_index then finish_transfer t false else t)

-- What both sector loops do at the end of a sector, up to the choice of the next phase.
unfoldable pub next_sector : State → State
next_sector s =
    let lba = u32 (s.disk.transfer_lba + 1) in
    let remaining = s.disk.sectors_remaining - 1 in
    record s {
      disk = record s.disk {
        data_index = 0;
        transfer_lba = lba;
        sectors_remaining = remaining;
        selected_lba = lba;
        sector_count = u8 remaining;
        device = u8 (bit_or (bit_and s.disk.device 0xf0) (bit_and (shr32 lba 24) 0x0f));
      };
    }

unfoldable pub read_sector_word : State → ℕ × State
unfolding next_sector
read_sector_word s =
    let out = image_word s.disk.image s.disk.size (s.disk.transfer_lba * 512 + s.disk.data_index) in
    let t = record s {
      disk = record s.disk { data_index = u16 (s.disk.data_index + 2) };
      counters = record s.counters { disk_reads = u64 (s.counters.disk_reads + 1) };
    } in
    let n = next_sector t in
    (
      out,
      if leb 512 t.disk.data_index
          then (if n.disk.sectors_remaining == 0
              then finish_transfer n false
              else if not (lba_in_range n n.disk.transfer_lba)
              then schedule_nondata_command n error_id_not_found false 0
              else schedule_pio_data n true)
          else t,
    )

-- The two bytes of a written word, where they lie inside the image.
unfoldable pub store_image_word : State → ℕ → ℕ → State
store_image_word s off value = elim s.disk.image [
  | none ↦ s
  | some d ↦
      if ltb (off + 1) s.disk.size
      then record s {
        disk = record s.disk {
          image = some (store (store d off (bit_and value 0xff)) (off + 1) (u8 (shr32 value 8)));
        };
        counters = record s.counters { disk_writes = u64 (s.counters.disk_writes + 1) };
      }
      else s
]

unfoldable pub write_sector_word : State → ℕ → State
unfolding store_image_word next_sector
write_sector_word s value =
    let w = store_image_word s (s.disk.transfer_lba * 512 + s.disk.data_index) value in
    let t = record w { disk = record w.disk { data_index = u16 (w.disk.data_index + 2) } } in
    let n = next_sector t in
    if leb 512 t.disk.data_index
    then (if n.disk.sectors_remaining == 0
        then schedule_pio_completion n
        else if not (lba_in_range n n.disk.transfer_lba)
        then schedule_nondata_command n error_id_not_found false 0
        else schedule_pio_data n true)
    else t

-- The transfer that a data read serves.
word_of : Transfer → State → ℕ × State
word_of transfer_identify s = read_identify_word s
word_of transfer_read s = read_sector_word s
word_of _ s = (0xffff, s)

unfoldable pub disk_word : State → ℕ × State
unfolding word_of
disk_word s =
    if not (test_bits s.disk.status 0x08) then (0xffff, s) else word_of s.disk.transfer_kind s

unfoldable pub data_read : State → ℕ → ℕ × State
data_read s size =
    let (lo, t) = disk_word s in
    let (hi, u) = disk_word t in if size == 4 then (bit_or lo (shl32 hi 16), u) else (lo, t)

abbrev pub is_write : Transfer → Bool
is_write transfer_write = true
is_write transfer_none = false
is_write transfer_identify = false
is_write transfer_read = false
is_write transfer_dma_read = false
is_write transfer_dma_write = false

unfoldable pub data_write : State → ℕ → ℕ → State
data_write s size value =
    let t = write_sector_word s (bit_and value 0xffff) in
    if not (test_bits s.disk.status 0x08) || not (is_write s.disk.transfer_kind)
    then s
    else if (size == 4) && test_bits t.disk.status 0x08
    then write_sector_word t (u16 (shr32 value 16))
    else t
