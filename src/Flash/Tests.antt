-- ===== src/Flash/Tests.antt =====
-- The flash chip's theorems at concrete chips.
use nano1g_unicorn_c.Base.{◌≡◌, refl, arith, true, false}
use nano1g_unicorn_c.State.{Flash, mode_status}
use nano1g_unicorn_c.Sample.{blank_flash}
use nano1g_unicorn_c.Flash.{write_chip, program_bytes}
use nano1g_unicorn_c.Flash.Contents.{IsValid, contents, contents_after, contents-write_chip}
use nano1g_unicorn_c.Flash.Erase.{erase_swallows_next}

-- An erased chip, and one that waits for the data of a program command.
abbrev erased : Flash
erased = record blank_flash { bytes = λ _. 0xff; status = 0x80 }

abbrev waiting : Flash
waiting = record erased { program_pending = true }

abbrev set_up : Flash
set_up = record erased { erase_pending = true }

erased-IsValid : IsValid erased
erased-IsValid = ground arith

waiting-IsValid : IsValid waiting
waiting-IsValid = ground arith

programmed : (write_chip waiting 0x204 2 0x1234).bytes 0x205 ≡ 0x12
unfolding write_chip program_bytes
programmed = refl

contents-write_chip_example :
    contents (write_chip waiting 4 2 0x1234) 5 ≡ contents_after waiting 4 2 0x1234 5
contents-write_chip_example =
    contents-write_chip waiting 4 2 0x1234 waiting-IsValid (λ h. ground arith) 5

-- The read-array command after an erase is the one lost.
erase_swallows_next_example :
    let g = write_chip set_up 0x20000 2 0xd0 in
    (write_chip g 0 2 0xff ≡ record g { erase_pending = false }) × (g.mode ≡ mode_status)
erase_swallows_next_example =
    erase_swallows_next set_up 0x20000 2 0xd0 0 2 0xff refl refl refl (omega arith)
