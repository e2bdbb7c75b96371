-- ===== src/Flash.antt =====
-- src/dev_flash.c: the NOR flash chip, whose commands overlay the first 256 bytes of the array.
pub mod Contents
pub mod Erase
mod Tests
use nano1g_unicorn_c.Base.{
  ℕ, zero, suc, ◌+◌, ◌-◌, ◌*◌, ◌/◌, ◌%◌, ◌^◌, Bool, true, false, ◌&&◌, ltb, leb, ◌==◌,
  if◌then◌else◌, bit_and, Array, store,
}
use nano1g_unicorn_c.Word.{u8, u16, u32, shr32, clear_bits}
use nano1g_unicorn_c.State.{State, Flash, mode_array, mode_id, mode_status, mode_cfi}
use nano1g_unicorn_c.Ram.{load_le}

-- N1G_FLASH_SIZE, sizeof saved_window, and the block that an erase clears.
abbrev pub flash_size : ℕ
flash_size = 0x100000

abbrev pub window_size : ℕ
window_size = 0x100

abbrev pub block_size : ℕ
block_size = 0x10000

-- The copy loops of save_window and restore_window.
abbrev pub copy_window : Array ℕ → Array ℕ → Array ℕ
copy_window dst src = λ i. if ltb i window_size then src i else dst i

pub save_window : Flash → Flash
save_window f =
    if f.saved_window_valid
    then f
    else record f { saved_window = copy_window f.saved_window f.bytes; saved_window_valid = true }

pub restore_window : Flash → Flash
restore_window f =
    if f.saved_window_valid
    then record f { bytes = copy_window f.bytes f.saved_window; saved_window_valid = false }
    else f

put16 : Array ℕ → ℕ → ℕ → Array ℕ
put16 p offset value = store (store p (offset + 0) (u8 value)) (offset + 1) (u8 (shr32 value 8))

enter_array : Flash → Flash
unfolding restore_window
enter_array f = record (restore_window f) {
  mode = mode_array;
  program_pending = false;
  erase_pending = false;
}

enter_status : Flash → Flash
unfolding save_window
enter_status f =
    let g = save_window f in record g { mode = mode_status; bytes = store g.bytes 0 g.status }

-- The SST identification: manufacturer and device.
enter_id : Flash → Flash
unfolding save_window put16
enter_id f =
    let g = save_window f in
    let blank = copy_window g.bytes (λ _. 0xff) in
    record g { mode = mode_id; bytes = put16 (put16 blank 0x00 0x00bf) 0x02 0x273f }

-- The CFI query answer, 'Q' 'R' 'Y' and the sizes.
enter_cfi : Flash → Flash
unfolding save_window put16
enter_cfi f =
    let g = save_window f in
    let blank = copy_window g.bytes (λ _. 0) in
    let query = store (store (store blank 0x20 b'Q') 0x22 b'R') 0x24 b'Y' in
    record g { mode = mode_cfi; bytes = put16 (put16 query 0x26 0x0001) 0x4e 0x0010 }

-- n1g_dev_flash_read.
unfoldable pub flash_read : State → ℕ → ℕ → ℕ
flash_read s offset size =
    if leb (u32 (offset + size)) flash_size then load_le s.flash.bytes offset size else 0

-- The programming loop, which only clears bits. It stops at the end of the chip, so round i runs
-- exactly when its own byte lies inside.
unfoldable pub program_bytes : Array ℕ → ℕ → ℕ → ℕ → Array ℕ
program_bytes m offset zero value = m
program_bytes m offset (suc i) value =
    let m' = program_bytes m offset i value in
    if ltb (offset + i) flash_size
    then store m' (offset + i) (bit_and (m' (offset + i)) (u8 (shr32 value (8 * i))))
    else m'

-- The erase loop over the block of `offset`.
unfoldable pub erase_block : Array ℕ → ℕ → Array ℕ
erase_block m offset =
    let base = clear_bits offset 0xffff in
    λ j. if leb base j && ltb j (base + block_size) && ltb j flash_size then 0xff else m j

-- The switch on the command byte.
command : ℕ → Flash → Flash
unfolding restore_window enter_status enter_id enter_cfi enter_array
command cmd f =
    if (cmd == 0x10)
    then record (restore_window f) { program_pending = true; mode = mode_array }
    else if (cmd == 0x40)
    then record (restore_window f) { program_pending = true; mode = mode_array }
    else if (cmd == 0x20)
    then record (restore_window f) { erase_pending = true; mode = mode_array }
    else if (cmd == 0x50)
    then record f { status = 0x80 }
    else if (cmd == 0x70)
    then enter_status f
    else if (cmd == 0x90)
    then enter_id f
    else if (cmd == 0x98)
    then enter_cfi f
    else if (cmd == 0xff)
    then enter_array f
    else if (cmd == 0xf0)
    then enter_array f
    else f

-- n1g_dev_flash_write, on the chip.
unfoldable pub write_chip : Flash → ℕ → ℕ → ℕ → Flash
unfolding enter_status command
write_chip f offset size value =
    let cmd = u8 value in
    let g = if f.status == 0 then record f { status = 0x80 } else f in
    if g.program_pending
    then enter_status (record g {
      bytes = program_bytes g.bytes offset size value;
      status = 0x80;
      program_pending = false;
    })
    else if g.erase_pending
    then (if cmd == 0xd0
        then enter_status (record g { bytes = erase_block g.bytes offset; status = 0x80 })
        else record g { erase_pending = false })
    else command cmd g

unfoldable pub flash_write : State → ℕ → ℕ → ℕ → State
unfolding write_chip
flash_write s offset size value = record s { flash = write_chip s.flash offset size value }
