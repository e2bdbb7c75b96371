-- ===== src/Firmware.antt =====
-- src/firmware.c: where a firmware image, the firmware of a disk image and a flash ROM are placed.
-- What n1g_read_file reads is an argument.
pub mod Errors
pub mod Inside
pub mod Placement
mod Tests
use nano1g_unicorn_c.Base.{
  ℕ, zero, suc, ◌+◌, ◌-◌, Bool, true, false, not, ◌&&◌, ◌||◌, ltb, leb, ◌==◌, if◌then◌else◌, bit_or,
  Option, some, none, Array, Buffer, copy_bytes,
}
use nano1g_unicorn_c.Word.{u32, shl32}
use nano1g_unicorn_c.State.{State, Profile, rockbox, apple, BootMode, boot_direct, boot_flash}
use nano1g_unicorn_c.Ram.{Pointer, ram_ptr}
use nano1g_unicorn_c.Ram.Copy.{copy_to}
use nano1g_unicorn_c.Flash.{flash_size}

-- rd32.
unfoldable pub rd32 : Array ℕ → ℕ → ℕ
rd32 p off =
    bit_or (bit_or (bit_or (p off) (shl32 (p (off + 1)) 8)) (shl32 (p (off + 2)) 16))
      (shl32 (p (off + 3)) 24)

-- fourcc_readable at "osos": the four letters stand backwards.
unfoldable pub is_osos : Array ℕ → ℕ → Bool
is_osos p off =
    (p (off + 7) == b'o') && (p (off + 6) == b's') && (p (off + 5) == b'o') && (p (off + 4) == b's')

-- memcpy to what n1g_ram_ptr gives; without a pointer the load fails.
abbrev pub place : Option Pointer → State → Array ℕ → ℕ → ℕ → State × Bool
place none s src from n = (s, false)
place (some p) s src from n = (copy_to s p src from n, true)

abbrev pub set_entry : State → ℕ → State
set_entry s entry =
    if s.opts.entry_set
    then s
    else record s { opts = record s.opts { entry = entry; entry_set = true } }

abbrev pub when_done : State × Bool → (State → State) → State × Bool
when_done (s, true) f = (f s, true)
when_done (s, false) f = (s, false)

-- The payload of the osos entry, once its words are read.
unfoldable pub place_payload : State → Buffer → ℕ → ℕ → ℕ → ℕ → State × Bool
place_payload s fw dev_off length addr entry =
    let payload_off = dev_off + 0x200 in
    if ltb fw.size (payload_off + length)
    then (s, false)
    else when_done (place (ram_ptr s addr length) s fw.bytes payload_off length) (λ t.
      set_entry (record t { opts = record t.opts { load_addr = addr } }) (u32 (addr + entry)))

-- The osos entry of the directory, at `d`.
unfoldable pub load_osos : State → Buffer → ℕ → State × Bool
unfolding rd32 place_payload
load_osos s fw d =
    place_payload s fw (rd32 fw.bytes (d + 12)) (rd32 fw.bytes (d + 16)) (rd32 fw.bytes (d + 20))
      (rd32 fw.bytes (d + 24))

-- The loop over the directory.
unfoldable pub load_entries : ℕ → State → Buffer → ℕ → State × Bool
load_entries zero s fw d = (s, false)
load_entries (suc n) s fw d =
    let rest = load_entries n s fw (d + 40) in
    if ltb fw.size (d + 40)
    then (s, false)
    else if rd32 fw.bytes d == 0
    then (s, false)
    else if is_osos fw.bytes d
    then load_osos s fw d
    else rest

-- looks_like_wrapped_firmware, the first test of load_wrapped_firmware.
unfoldable pub looks_like_wrapped : Buffer → Bool
looks_like_wrapped fw = leb 0x4200 fw.size && (rd32 fw.bytes 0x100 == 0x5b68695d)

-- load_wrapped_firmware. The loop makes at most a round for each 40 bytes.
unfoldable pub load_wrapped_firmware : State → Buffer → State × Bool
load_wrapped_firmware s fw =
    let d = rd32 fw.bytes 0x104 + 0x200 in
    if looks_like_wrapped fw && leb (d + 40) fw.size
    then load_entries fw.size s fw d
    else (s, false)

-- memcmp(fw + 4, "nano", 4) == 0.
abbrev pub is_nano : Array ℕ → Bool
is_nano p = (p 4 == b'n') && (p 5 == b'a') && (p 6 == b'n') && (p 7 == b'o')

unfoldable pub load_ipod_firmware : State → Buffer → State × Bool
load_ipod_firmware s fw =
    let payload_size = fw.size - 8 in
    if leb fw.size 8 || not (is_nano fw.bytes)
    then (s, false)
    else when_done (place (ram_ptr s s.opts.load_addr payload_size) s fw.bytes 8 payload_size)
        (λ t. set_entry t t.opts.load_addr)

-- The next attempt, in the state that a failed one leaves.
abbrev pub or_load : State × Bool → (State → State × Bool) → State × Bool
or_load (s, true) next = (s, true)
or_load (s, false) next = next s

-- n1g_load_firmware: a wrapped image, an image with a header of eight bytes, or bare code.
unfoldable pub load_firmware : State → Option Buffer → State × Bool
load_firmware s none = (s, false)
load_firmware s (some fw) =
    or_load (or_load (load_wrapped_firmware s fw) (λ t. load_ipod_firmware t fw))
      (λ t. place (ram_ptr t t.opts.load_addr fw.size) t fw.bytes 0 fw.size)

-- The bytes of a buffer from a place on.
abbrev pub from_byte : Buffer → ℕ → Buffer
from_byte b start = record { bytes = λ i. b.bytes (start + i); size = b.size - start }

abbrev pub has_magic : Array ℕ → ℕ → Bool
has_magic p pos =
    (p pos == 0x5d) && (p (pos + 1) == 0x69) && (p (pos + 2) == 0x68) && (p (pos + 3) == 0x5b)

-- A round of the search through the disk image: the magic number at `pos`, a directory in range
-- whose first entry is osos, and a load.
unfoldable pub load_at : State → Buffer → ℕ → State × Bool
load_at s disk pos =
    let start = pos - 0x100 in
    let dir_off = rd32 disk.bytes (pos + 4) in
    if not (has_magic disk.bytes pos)
    then (s, false)
    else if ltb 0x100000 dir_off || ltb disk.size (start + dir_off + 0x228)
    then (s, false)
    else if not (is_osos disk.bytes (start + dir_off + 0x200))
    then (s, false)
    else load_wrapped_firmware s (from_byte disk start)

-- The search, in steps of four bytes.
unfoldable pub search_image : ℕ → State → Buffer → ℕ → State × Bool
search_image zero s disk pos = (s, false)
search_image (suc n) s disk pos =
    let found = or_load (load_at s disk pos) (λ t. search_image n t disk (pos + 4)) in
    if leb (pos + 4) disk.size then found else (s, false)

-- n1g_load_firmware_from_disk, with its disk image.
unfoldable pub load_from_image : Option (Array ℕ) → State → State × Bool
load_from_image none s = (s, false)
load_from_image (some image) s =
    if ltb s.disk.size 0x1200
    then (s, false)
    else search_image s.disk.size s (record { bytes = image; size = s.disk.size }) 0x100

unfoldable pub load_firmware_from_disk : State → State × Bool
unfolding load_from_image
load_firmware_from_disk s = load_from_image s.disk.image s

abbrev pub wants_full_rom : Profile → BootMode → Bool
wants_full_rom apple boot_flash = true
wants_full_rom apple boot_direct = false
wants_full_rom rockbox mode = false

-- The flash ROM's option: no path, or a path with what is read there.
pub data RomFile : Type 0 where
  no_path unreadable : RomFile
  readable : Buffer → RomFile

-- n1g_load_flash_rom.
unfoldable pub load_flash_rom : State → RomFile → State × Bool
load_flash_rom s no_path = (s, true)
load_flash_rom s unreadable = (s, false)
load_flash_rom s (readable rom) =
    if wants_full_rom s.opts.profile s.opts.boot_mode && not (rom.size == flash_size)
    then (s, false)
    else if ltb flash_size rom.size
    then (s, false)
    else (
      record s {
        flash = record s.flash {
          bytes =
              copy_bytes (λ j. if ltb j flash_size then 0xff else s.flash.bytes j) 0 rom.bytes 0
                rom.size;
        };
      },
      true,
    )
