-- ===== src/Disk/Dma.antt =====
-- src/disk_ata.c: transfers between the disk and memory.
use nano1g_unicorn_c.Base.{
  ℕ, ◌+◌, ◌-◌, ◌*◌, ◌/◌, ◌%◌, ◌^◌, Bool, true, false, not, ◌&&◌, ◌||◌, ltb, leb, ◌==◌,
  if◌then◌else◌, bit_and, bit_or, min, Array, copy_bytes, Option, some, none,
}
use nano1g_unicorn_c.Word.{u8, u16, u32, u64, shr32, test_bits, clear_bits}
use nano1g_unicorn_c.State.{
  State, Transfer, transfer_none, transfer_identify, transfer_read, transfer_write,
  transfer_dma_read, transfer_dma_write,
}
use nano1g_unicorn_c.Ram.{Pointer, into_sdram, into_fastram, ram_ptr}
use nano1g_unicorn_c.Disk.Identify.{disk_sector_count}
use nano1g_unicorn_c.Disk.Control.{
  finish_transfer, schedule_nondata_command, error_id_not_found, error_abort,
}

abbrev pub is_dma : Transfer → Bool
is_dma transfer_dma_read = true
is_dma transfer_dma_write = true
is_dma transfer_none = false
is_dma transfer_identify = false
is_dma transfer_read = false
is_dma transfer_write = false

unfoldable pub schedule_dma : State → State
schedule_dma s = record s {
  disk = record s.disk {
    dma_pending = test_bits s.disk.dma_control 1 && is_dma s.disk.transfer_kind;
  };
}

-- memset of n bytes.
abbrev pub fill_bytes : Array ℕ → ℕ → ℕ → ℕ → Array ℕ
fill_bytes dst to v n = λ j. if leb to j && ltb j (to + n) then v else dst j

abbrev pub memory : State → Pointer → Array ℕ
memory s (into_sdram off) = s.ram.sdram
memory s (into_fastram off) = s.ram.fastram

abbrev pub offset_of : Pointer → ℕ
offset_of (into_sdram off) = off
offset_of (into_fastram off) = off

abbrev pub set_memory : State → Pointer → Array ℕ → State
set_memory s (into_sdram off) m = record s { ram = record s.ram { sdram = m } }
set_memory s (into_fastram off) m = record s { ram = record s.ram { fastram = m } }

-- How many bytes from `disk_off` on, of the n asked for, the image has.
unfoldable pub image_bytes : State → ℕ → ℕ → ℕ
image_bytes s disk_off n = elim s.disk.image [
  | none ↦ 0
  | some d ↦ if ltb disk_off s.disk.size then min (s.disk.size - disk_off) n else 0
]

abbrev pub image_of : Option (Array ℕ) → Array ℕ
image_of none = λ _. 0
image_of (some d) = d

-- The READ branch: what the image has, then 0xff.
unfoldable pub dma_to_memory : State → Pointer → ℕ → ℕ → State
unfolding image_bytes
dma_to_memory s p disk_off bytes =
    let copied = image_bytes s disk_off bytes in
    let m = copy_bytes (memory s p) (offset_of p) (image_of s.disk.image) disk_off copied in
    let t = set_memory s p (fill_bytes m (offset_of p + copied) 0xff (bytes - copied)) in
    record t {
      counters = record t.counters { disk_reads = u64 (t.counters.disk_reads + (bytes + 1) / 2) };
    }

-- The WRITE branch: what the image has room for.
unfoldable pub dma_to_image : State → Pointer → ℕ → ℕ → State
unfolding image_bytes
dma_to_image s p disk_off bytes =
    let copied = image_bytes s disk_off bytes in
    elim s.disk.image [
      | none ↦ s
      | some d ↦
          if ltb disk_off s.disk.size
          then record s {
            disk = record s.disk {
              image = some (copy_bytes d disk_off (memory s p) (offset_of p) copied);
            };
            counters = record s.counters {
              disk_writes = u64 (s.counters.disk_writes + (copied + 1) / 2);
            };
          }
          else s
    ]

-- The registers after `bytes` bytes have gone over.
unfoldable pub advance_dma : State → ℕ → State
advance_dma s bytes =
    let total = s.disk.data_index + bytes in
    let sectors_done = u32 (total / 512) in
    let lba = u32 (s.disk.transfer_lba + sectors_done) in
    let remaining =
      if leb s.disk.sectors_remaining sectors_done
      then 0
      else s.disk.sectors_remaining - sectors_done in
    record s {
      disk = record s.disk {
        dma_addr = u32 (s.disk.dma_addr + bytes);
        dma_length = 0;
        dma_status = 0;
        dma_control = clear_bits s.disk.dma_control 0x80000000;
        data_index = u16 (total % 512);
        transfer_lba = lba;
        sectors_remaining = remaining;
        selected_lba = lba;
        sector_count = u8 remaining;
        device = u8 (bit_or (bit_and s.disk.device 0xf0) (bit_and (shr32 lba 24) 0x0f));
      };
    }

-- What is asked for, cut to what the command still has to transfer.
unfoldable pub requested_bytes : State → ℕ
requested_bytes s =
    let requested = s.disk.dma_length + 4 in
    let available = u64 (s.disk.sectors_remaining * 512 + 2 ^ 64 - s.disk.data_index) in
    if ltb available requested then available else requested

-- The bytes that stay inside the disk's sectors.
unfoldable pub bounded_bytes : State → ℕ → ℕ → ℕ
bounded_bytes s disk_off requested =
    let logical_size = disk_sector_count s * 512 in
    let bytes = if ltb disk_off logical_size then logical_size - disk_off else 0 in
    if ltb requested bytes then requested else bytes

unfoldable pub move_bytes : Transfer → State → Pointer → ℕ → ℕ → State
move_bytes transfer_dma_read s p disk_off bytes = dma_to_memory s p disk_off bytes
move_bytes _ s p disk_off bytes = dma_to_image s p disk_off bytes

unfoldable pub dma_failed : State → ℕ → State
unfolding schedule_nondata_command
dma_failed s error =
    schedule_nondata_command (record s { disk = record s.disk { dma_status = 1 } }) error false 0

unfoldable pub transfer_bytes : State → Pointer → ℕ → Bool → State
unfolding move_bytes dma_failed
transfer_bytes s p bytes lba_error =
    let disk_off = s.disk.transfer_lba * 512 + s.disk.data_index in
    let t = advance_dma (move_bytes s.disk.transfer_kind s p disk_off bytes) bytes in
    if lba_error
    then dma_failed t error_id_not_found
    else if t.disk.sectors_remaining == 0
    then finish_transfer t true
    else t

unfoldable pub complete_dma_transfer : State → State
unfolding requested_bytes bounded_bytes transfer_bytes dma_failed
complete_dma_transfer s =
    let t = record s { disk = record s.disk { dma_pending = false } } in
    let requested = requested_bytes t in
    let disk_off = t.disk.transfer_lba * 512 + t.disk.data_index in
    let bytes = bounded_bytes t disk_off requested in
    let failing = dma_failed t (if bytes == 0 then error_id_not_found else error_abort) in
    let moved : State = elim (ram_ptr t t.disk.dma_addr bytes) [
      | none ↦ failing
      | some p ↦ if bytes == 0 then failing else transfer_bytes t p bytes (ltb bytes requested)
    ] in
    if not (test_bits s.disk.dma_control 1) || not (is_dma s.disk.transfer_kind) then s else moved
