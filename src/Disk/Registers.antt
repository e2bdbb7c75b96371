-- ===== src/Disk/Registers.antt =====
-- src/disk_ata.c: the device's tick, and the registers through which the guest drives it.
use nano1g_unicorn_c.Base.{
  ℕ, ◌-◌, Bool, true, false, not, ◌&&◌, ◌||◌, leb, ◌==◌, if◌then◌else◌, bit_and, bit_or, Option,
  some, none,
}
use nano1g_unicorn_c.Word.{u8, shr32, shl32, test_bits, clear_bits}
use nano1g_unicorn_c.State.{
  State, transfer_identify, transfer_read, transfer_write, transfer_dma_read, transfer_dma_write,
  Transfer,
}
use nano1g_unicorn_c.Disk.Identify.{build_identify, lba_in_range}
use nano1g_unicorn_c.Disk.Control.{
  set_ide_irq, finish_transfer, schedule_pio_data, schedule_nondata_command, schedule_command_abort,
  complete_nondata_command, assert_soft_reset, release_soft_reset, complete_soft_reset,
  error_id_not_found, data_ready,
}
use nano1g_unicorn_c.Disk.Pio.{data_read, data_write}
use nano1g_unicorn_c.Disk.Dma.{schedule_dma, complete_dma_transfer}

unfoldable pub start_identify : State → State
unfolding schedule_pio_data
start_identify s =
    let t = build_identify s in
    schedule_pio_data
      (record t {
        disk = record t.disk {
          error = 0;
          data_index = 0;
          sectors_remaining = 1;
          transfer_kind = transfer_identify;
        };
      })
      true

-- A sector count of 0 means 256.
abbrev pub sectors_asked : State → ℕ
sectors_asked s = if s.disk.sector_count == 0 then 256 else s.disk.sector_count

-- What start_read, start_write and start_dma set alike.
abbrev pub begin_transfer : State → Transfer → State
begin_transfer s kind = record s {
  disk = record s.disk {
    error = 0;
    transfer_lba = s.disk.selected_lba;
    sectors_remaining = sectors_asked s;
    data_index = 0;
    transfer_kind = kind;
  };
}

unfoldable pub start_read : State → State
unfolding schedule_pio_data schedule_nondata_command
start_read s =
    if not (lba_in_range s s.disk.selected_lba)
    then schedule_nondata_command s error_id_not_found false 0
    else schedule_pio_data (begin_transfer s transfer_read) true

unfoldable pub start_write : State → State
unfolding schedule_pio_data schedule_nondata_command
start_write s =
    if not (lba_in_range s s.disk.selected_lba)
    then schedule_nondata_command s error_id_not_found false 0
    else schedule_pio_data (begin_transfer s transfer_write) false

unfoldable pub start_dma : State → Bool → State
unfolding set_ide_irq schedule_dma schedule_nondata_command
start_dma s write =
    let t = begin_transfer s (if write then transfer_dma_write else transfer_dma_read) in
    if not (lba_in_range s s.disk.selected_lba)
    then schedule_nondata_command s error_id_not_found false 0
    else schedule_dma (
        set_ide_irq
          (record t {
            disk = record t.disk {
              pio_data_pending = false;
              pio_ready_irq = false;
              pio_completion_pending = false;
              nondata_pending = false;
              status = data_ready;
            };
          })
          false)

-- The data phase that a tick opens.
unfoldable pub open_data_phase : State → State
unfolding set_ide_irq
open_data_phase s =
    let t = record s { disk = record s.disk { pio_data_pending = false; status = data_ready } } in
    let u = set_ide_irq t t.disk.pio_ready_irq in
    record u { disk = record u.disk { pio_ready_irq = false } }

-- n1g_disk_tick.
unfoldable pub disk_tick : State → State
unfolding finish_transfer open_data_phase complete_nondata_command
disk_tick s =
    let a = if s.disk.nondata_pending then complete_nondata_command s else s in
    let b = if a.disk.pio_completion_pending then finish_transfer a true else a in
    let c = if b.disk.pio_data_pending then open_data_phase b else b in
    let d = if c.disk.dma_pending then complete_dma_transfer c else c in
    if s.disk.soft_reset_asserted
    then s
    else if s.disk.soft_reset_pending
    then complete_soft_reset s
    else d

-- normalize_taskfile_offset: the PP5020 offsets, and the plain ones up to 0x1c.
unfoldable pub normalize_taskfile_offset : ℕ → Option ℕ
normalize_taskfile_offset offset =
    if offset == 0x1e0
    then some 0x00
    else if offset == 0x1e4
    then some 0x04
    else if offset == 0x1e8
    then some 0x08
    else if offset == 0x1ec
    then some 0x0c
    else if offset == 0x1f0
    then some 0x10
    else if offset == 0x1f4
    then some 0x14
    else if offset == 0x1f8
    then some 0x18
    else if offset == 0x1fc
    then some 0x1c
    else if leb offset 0x1c
    then some offset
    else none

-- The task file, read.
unfoldable pub taskfile_read : State → ℕ → ℕ → ℕ × State
unfolding set_ide_irq
taskfile_read s reg size =
    if reg == 0x00
    then data_read s size
    else if reg == 0x04
    then (s.disk.error, s)
    else if reg == 0x08
    then (s.disk.sector_count, s)
    else if reg == 0x0c
    then (bit_and s.disk.selected_lba 0xff, s)
    else if reg == 0x10
    then (bit_and (shr32 s.disk.selected_lba 8) 0xff, s)
    else if reg == 0x14
    then (bit_and (shr32 s.disk.selected_lba 16) 0xff, s)
    else if reg == 0x18
    then (s.disk.device, s)
    else if reg == 0x1c
    then (s.disk.status, set_ide_irq s false)
    else (0, s)

-- n1g_disk_read.
unfoldable pub disk_read : State → ℕ → ℕ → ℕ × State
unfolding taskfile_read normalize_taskfile_offset
disk_read s offset size =
    if offset == 0x28
    then (bit_or (clear_bits s.disk.ide0_cfg 0x18) (if s.disk.irq_pending then 0x18 else 0), s)
    else if offset == 0x2c
    then (s.disk.ide1_cfg, s)
    else if offset == 0x3f8
    then (s.disk.status, s)
    else if offset == 0x400
    then (s.disk.dma_control, s)
    else if offset == 0x404
    then (s.disk.dma_status, s)
    else if offset == 0x408
    then (s.disk.dma_length, s)
    else if offset == 0x40c
    then (s.disk.dma_addr, s)
    else if offset == 0x410
    then (s.disk.dma_unknown, s)
    else elim (normalize_taskfile_offset offset) [
      | none ↦ (0, s)
      | some reg ↦ taskfile_read s reg size
    ]

-- The write of the device control register: the soft-reset bit, and the interrupt's mask.
unfoldable pub device_control_write : State → ℕ → State
unfolding set_ide_irq assert_soft_reset release_soft_reset
device_control_write s value =
    let previous = s.disk.device_control in
    let t = record s { disk = record s.disk { device_control = u8 value } } in
    if test_bits t.disk.device_control 0x04
    then (if not (test_bits previous 0x04) || t.disk.soft_reset_pending
        then assert_soft_reset t
        else set_ide_irq t false)
    else if test_bits previous 0x04
    then release_soft_reset t
    else set_ide_irq t t.disk.irq_pending

unfoldable pub set_multiple_mode : State → State
set_multiple_mode s =
    let count = s.disk.sector_count in
    let valid = (count == 0) || (leb count 1 && (bit_and count (count - 1) == 0)) in
    if valid then schedule_nondata_command s 0 true count else schedule_command_abort s

-- The write of the command register.
unfoldable pub command_write : State → ℕ → State
unfolding set_multiple_mode
command_write s value =
    let t = record s { disk = record s.disk { command = u8 value } } in
    let c = t.disk.command in
    let no_multiple = t.disk.multiple_count == 0 in
    if c == 0xec
    then start_identify t
    else if (c == 0x20) || (c == 0x24)
    then start_read t
    else if c == 0xc4
    then (if no_multiple then schedule_command_abort t else start_read t)
    else if (c == 0x30) || (c == 0x34)
    then start_write t
    else if c == 0xc5
    then (if no_multiple then schedule_command_abort t else start_write t)
    else if (c == 0xc8) || (c == 0xc9)
    then start_dma t false
    else if (c == 0xca) || (c == 0xcb)
    then start_dma t true
    else if c == 0xc6
    then set_multiple_mode t
    else if (c == 0xef) || ((c == 0xe0) || (c == 0xe7))
    then schedule_nondata_command t 0 false 0
    else schedule_command_abort t

-- The task file, written.
unfoldable pub taskfile_write : State → ℕ → ℕ → ℕ → State
taskfile_write s reg size value =
    let lba = s.disk.selected_lba in
    if reg == 0x00
    then data_write s size value
    else if reg == 0x04
    then record s { disk = record s.disk { error = u8 value } }
    else if reg == 0x08
    then record s { disk = record s.disk { sector_count = u8 value } }
    else if reg == 0x0c
    then record s {
      disk = record s.disk { selected_lba = bit_or (bit_and lba 0xffffff00) (bit_and value 0xff) };
    }
    else if reg == 0x10
    then record s {
      disk = record s.disk {
        selected_lba = bit_or (bit_and lba 0xffff00ff) (shl32 (bit_and value 0xff) 8);
      };
    }
    else if reg == 0x14
    then record s {
      disk = record s.disk {
        selected_lba = bit_or (bit_and lba 0xff00ffff) (shl32 (bit_and value 0xff) 16);
      };
    }
    else if reg == 0x18
    then record s {
      disk = record s.disk {
        device = u8 value;
        selected_lba = bit_or (bit_and lba 0x00ffffff) (shl32 (bit_and value 0x0f) 24);
      };
    }
    else if reg == 0x1c
    then command_write s value
    else s

-- n1g_disk_write.
unfoldable pub disk_write : State → ℕ → ℕ → ℕ → State
unfolding device_control_write normalize_taskfile_offset
disk_write s offset size value =
    let acked = if test_bits value 0x18 then set_ide_irq s false else s in
    let guarded = λ (reg : ℕ).
      (if s.disk.soft_reset_asserted || s.disk.soft_reset_pending
        then s
        else taskfile_write s reg size value) in
    if offset == 0x28
    then record acked { disk = record acked.disk { ide0_cfg = clear_bits value 0x18 } }
    else if offset == 0x2c
    then record s { disk = record s.disk { ide1_cfg = bit_or value 0x08 } }
    else if offset == 0x3f8
    then device_control_write s value
    else if offset == 0x400
    then schedule_dma (record s { disk = record s.disk { dma_control = value } })
    else if offset == 0x404
    then record s { disk = record s.disk { dma_status = value } }
    else if offset == 0x408
    then record s { disk = record s.disk { dma_length = value } }
    else if offset == 0x40c
    then record s { disk = record s.disk { dma_addr = value } }
    else if offset == 0x410
    then record s { disk = record s.disk { dma_unknown = value } }
    else elim (normalize_taskfile_offset offset) [ none ↦ s | some reg ↦ guarded reg ]
