-- ===== src/Disk/Tests.antt =====
-- The disk's theorems at concrete disks.
use nano1g_unicorn_c.Base.{◌≡◌, ◌+◌, ◌*◌, ◌%◌, refl, some, arith, Array, ℕ}
use nano1g_unicorn_c.State.{State}
use nano1g_unicorn_c.Sample.{idle}
use nano1g_unicorn_c.Disk.Identify.{sector_count_of}
use nano1g_unicorn_c.Disk.Control.{error_id_not_found}
use nano1g_unicorn_c.Disk.Registers.{disk_tick, disk_write, sectors_asked}
use nano1g_unicorn_c.Disk.Guest.{read_sectors, image_sectors}
use nano1g_unicorn_c.Disk.Reading.{AcceptsCommand, IsDone, read_sectors_lem}
use nano1g_unicorn_c.Disk.Guest.{write_sectors}
use nano1g_unicorn_c.Disk.Writing.{IsOver}
use nano1g_unicorn_c.Disk.Span.{span, byte_of}
use nano1g_unicorn_c.Disk.RoundTrip.{listed, write_sectors_lem, read_sectors-write_sectors}
use nano1g_unicorn_c.Ram.{ram_ptr, ram_read, into_sdram}
use nano1g_unicorn_c.Disk.Fetching.{read_dma_lem}
use nano1g_unicorn_c.Disk.Errors.{HasFailed, refused_command}
use nano1g_unicorn_c.Disk.Invariant.{IsValid}
use nano1g_unicorn_c.Disk.Preserve.{disk_write-IsValid, disk_tick-IsValid}

-- A disk of four sectors; sectors 1 and 2 are selected.
abbrev content : Array ℕ
content = λ j. j % 251

abbrev small : State
small = record idle {
  disk = record idle.disk { image = some content; size = 2048; selected_lba = 1; sector_count = 2 };
}

small-AcceptsCommand : AcceptsCommand small
small-AcceptsCommand = record { no_dma = refl; no_reset = refl; no_reset_pending = refl }

abbrev beyond : State
beyond = record small { disk = record small.disk { selected_lba = 4 } }

beyond-AcceptsCommand : AcceptsCommand beyond
beyond-AcceptsCommand = record { no_dma = refl; no_reset = refl; no_reset_pending = refl }

small-IsValid : IsValid small
small-IsValid = ground arith

read_sectors_lem_example :
    let (words, t) =
      read_sectors (sectors_asked small) (disk_tick (disk_write small 0x1fc 1 0x20)) in
    (words ≡ image_sectors (some content) 2048 1 (sectors_asked small))
    × IsDone (some content) 2048 t (1 + sectors_asked small)
read_sectors_lem_example =
    read_sectors_lem small small-AcceptsCommand (unfold sector_count_of in omega arith)

refused_command_example :
    HasFailed (disk_tick (disk_write beyond 0x1fc 1 0x20)) error_id_not_found
    × ((disk_tick (disk_write beyond 0x1fc 1 0x20)).disk.image ≡ some content)
refused_command_example =
    refused_command beyond 0x20 error_id_not_found (omega arith) beyond-AcceptsCommand
      (unfold sector_count_of in refl)

-- Writes: a command, and then a tick that opens its data phase.
disk_write-IsValid_example : IsValid (disk_write small 0x1fc 1 0x20)
disk_write-IsValid_example = disk_write-IsValid small 0x1fc 1 0x20 small-IsValid

disk_tick-IsValid_example : IsValid (disk_tick (disk_write small 0x1fc 1 0x20))
disk_tick-IsValid_example =
    disk_tick-IsValid (disk_write small 0x1fc 1 0x20)
      (disk_write-IsValid small 0x1fc 1 0x20 small-IsValid)

-- Words for both sectors, and the disk with the same sectors selected again.
abbrev words : Array ℕ
words = λ i. 3 * i + 0x1234

abbrev after_write : State
after_write = write_sectors (sectors_asked small) (disk_tick (disk_write small 0x1fc 1 0x30)) words

write_sectors_lem_example : IsOver 2048 after_write (span content 512 1024 (byte_of words)) 3
write_sectors_lem_example =
    write_sectors_lem small content words refl small-AcceptsCommand (omega arith)
      (unfold sector_count_of in omega arith)

abbrev selected_again : State
selected_again = record after_write {
  disk = record after_write.disk { selected_lba = 1; sector_count = 2; size = 2048 };
}

selected_again-AcceptsCommand : AcceptsCommand selected_again
selected_again-AcceptsCommand =
    let a =
      (write_sectors_lem small content words refl small-AcceptsCommand (omega arith)
        (unfold sector_count_of in omega arith)).accepts in
    record { no_dma = a.no_dma; no_reset = a.no_reset; no_reset_pending = a.no_reset_pending }

read_sectors-write_sectors_example :
    (read_sectors 2 (disk_tick (disk_write selected_again 0x1fc 1 0x20))).0 ≡ listed 512 0 words
read_sectors-write_sectors_example =
    read_sectors-write_sectors small selected_again content words refl small-AcceptsCommand
      (omega arith) (unfold sector_count_of in omega arith) selected_again-AcceptsCommand refl refl
      refl refl

-- The same disk with a DMA transfer set up, to the start of SDRAM.
abbrev with_dma : State
with_dma = record small {
  disk = record small.disk { dma_control = 1; dma_length = 1020; dma_addr = 0x10000000 };
}

with_dma-AcceptsCommand : AcceptsCommand with_dma
with_dma-AcceptsCommand = record { no_dma = refl; no_reset = refl; no_reset_pending = refl }

in_sdram : ram_ptr with_dma 0x10000000 1024 ≡ some (into_sdram 0)
unfolding ram_ptr
in_sdram = refl

read_dma_lem_example :
    IsOver 2048 (disk_tick (disk_write with_dma 0x1fc 1 0xc8)) content 3
    × (ram_read (disk_tick (disk_write with_dma 0x1fc 1 0xc8)) 0x10000007 1 ≡ some (content 519))
read_dma_lem_example =
    read_dma_lem with_dma content 7 refl (λ j. omega arith) with_dma-AcceptsCommand (omega arith)
      (unfold sector_count_of in omega arith) (omega arith) refl refl (omega arith) in_sdram
      (omega arith)
