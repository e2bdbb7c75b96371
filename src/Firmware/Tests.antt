-- ===== src/Firmware/Tests.antt =====
-- A wrapped image whose directory's second entry is osos.
use nano1g_unicorn_c.Base.{
  Buffer, ℕ, zero, suc, ◌+◌, ◌*◌, ◌/◌, ◌%◌, ◌^◌, ◌<◌, ◌≤◌, ◌≡◌, ◌≢◌, ◌⊎◌, ◌==◌, ltb, true, false,
  some, none, refl, arith, if◌then◌else◌,
}
use nano1g_unicorn_c.Sample.{idle, zeros}
use nano1g_unicorn_c.Ram.{into_sdram, ram_ptr, ram_read}
use nano1g_unicorn_c.Firmware.{
  rd32, is_osos, looks_like_wrapped, load_wrapped_firmware, load_ipod_firmware, load_firmware,
  load_firmware_from_disk, load_from_image, unreadable, readable, load_flash_rom,
}
use nano1g_unicorn_c.Firmware.Errors.{failed_load}
use nano1g_unicorn_c.Firmware.Inside.{load_depends_inside}
use nano1g_unicorn_c.Firmware.Placement.{dir, dev_off, length_of, IsFirst, load_wrapped_places}

-- The words of the header and of the two entries, by their place.
abbrev cell : ℕ → ℕ
cell i =
    if i == 0x100
    then 0x5d
    else if i == 0x101
    then 0x69
    else if i == 0x102
    then 0x68
    else if i == 0x103
    then 0x5b
    else if i == 0x200
    then 1
    else if i == 0x228
    then 1
    else if i == 0x22c
    then b's'
    else if i == 0x22d
    then b'o'
    else if i == 0x22e
    then b's'
    else if i == 0x22f
    then b'o'
    else if i == 0x235
    then 4
    else if i == 0x238
    then 4
    else if i == 0x23f
    then 0x10
    else if i == 0x240
    then 2
    else 7 * ((i / 0x602) % 2)

abbrev image : Buffer
image = record { bytes = cell; size = 0x4200 }

cell-lt : (i : ℕ) → cell i < 2 ^ 8
cell-lt i = ground arith

is_wrapped : looks_like_wrapped image ≡ true
unfolding looks_like_wrapped rd32
is_wrapped = refl

first_used : rd32 cell 0x200 ≡ 1
unfolding rd32
first_used = refl

second_used : rd32 cell 0x228 ≡ 1
unfolding rd32
second_used = refl

dir_image : dir image ≡ 0x200
unfolding rd32
dir_image = refl

used : (j : ℕ) → j ≤ 1 → rd32 cell (0x200 + 40 * j) ≢ 0
used zero h e = absurd (omega (arith, first_used, e))
used (suc zero) h e = absurd (omega (arith, second_used, e))
used (suc (suc j)) h e = absurd (omega arith)

others : (j : ℕ) → j < 1 → is_osos cell (0x200 + 40 * j) ≡ false
unfolding is_osos
others zero h = refl
others (suc j) h = absurd (omega arith)

osos : is_osos cell 0x228 ≡ true
unfolding is_osos
osos = refl

second : IsFirst image (dir image) 1
second = rw dir_image (record { inside = omega arith; used = used; others = others; osos = osos })

lands : ram_ptr idle 0x10000000 4 ≡ some (into_sdram 0)
unfolding ram_ptr
lands = refl

fits : dev_off image 0x228 + 0x200 + length_of image 0x228 ≤ image.size
unfolding rd32
fits = omega arith

load_wrapped_places_example :
    ((load_wrapped_firmware idle image).1 ≡ true)
    × (ram_read (load_wrapped_firmware idle image).0 0x10000002 1 ≡ some 7)
    × ((load_wrapped_firmware idle image).0.opts.load_addr ≡ 0x10000000)
    × ((load_wrapped_firmware idle image).0.opts.entry ≡ 0x10000002)
unfolding rd32
load_wrapped_places_example =
    load_wrapped_places idle image 1 2 cell-lt is_wrapped second fits lands (omega arith)

failed_load_example :
    (((load_firmware idle none).1 ≡ true) ⊎ ((load_firmware idle none).0 ≡ idle))
    × (((load_firmware_from_disk idle).1 ≡ true) ⊎ ((load_firmware_from_disk idle).0 ≡ idle))
    × (((load_flash_rom idle (readable image)).1 ≡ true)
        ⊎ ((load_flash_rom idle (readable image)).0 ≡ idle))
failed_load_example = failed_load idle none (readable image)

-- A longer memory with the same file.
tail : ℕ → ℕ
tail i = if ltb i 0x4200 then cell i else 0xff

tail-cell : (i : ℕ) → i < 0x4200 → cell i ≡ tail i
unfolding tail
tail-cell i h = let below : ltb i 0x4200 ≡ true = ground arith in rw below refl

load_depends_inside_example :
    (load_firmware idle (some (record { bytes = cell; size = 0x4200 }))
      ≡ load_firmware idle (some (record { bytes = tail; size = 0x4200 })))
    × (load_from_image (some zeros) idle ≡ load_from_image (some cell) idle)
load_depends_inside_example =
    load_depends_inside idle 0x4200 cell tail zeros cell tail-cell
      (λ i h. absurd (omega (arith, h)))

-- A bare image goes to the load address, a disk without an image fails.
bare : (load_firmware idle (some (record { bytes = λ i. i % 256; size = 0x20 }))).1 ≡ true
unfolding load_firmware load_wrapped_firmware load_ipod_firmware looks_like_wrapped ram_ptr
bare = refl

no_rom : (load_flash_rom idle unreadable).1 ≡ false
unfolding load_flash_rom
no_rom = refl
