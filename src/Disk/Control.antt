-- ===== src/Disk/Control.antt =====
-- src/disk_ata.c: the interrupt line, and the steps by which a command becomes busy and completes.
use nano1g_unicorn_c.Base.{ℕ, Bool, true, false, not, ◌&&◌, ◌==◌, if◌then◌else◌, bit_or}
use nano1g_unicorn_c.Word.{clear_bits, test_bits}
use nano1g_unicorn_c.State.{State, transfer_none}
use nano1g_unicorn_c.Disk.Identify.{build_identify}

-- The status bits.
abbrev pub ata_bsy : ℕ
ata_bsy = 0x80

abbrev pub ata_drdy : ℕ
ata_drdy = 0x40

-- ATA_DRDY | ATA_DSC, with ATA_DRQ, and with ATA_ERR.
abbrev pub ready : ℕ
ready = 0x50

abbrev pub data_ready : ℕ
data_ready = 0x58

abbrev pub failed : ℕ
failed = 0x51

abbrev pub error_abort : ℕ
error_abort = 0x04

abbrev pub error_id_not_found : ℕ
error_id_not_found = 0x10

-- PP5020_IDE_IRQ_BIT.
abbrev pub ide_irq : ℕ
ide_irq = 0x800000

unfoldable pub set_ide_irq : State → Bool → State
set_ide_irq s pending =
    let n = s.intc in
    let shown = pending && not (test_bits s.disk.device_control 0x02) in
    record s {
      disk = record s.disk { irq_pending = pending };
      intc =
          if shown
          then record n {
            cpu_status = bit_or n.cpu_status ide_irq;
            cop_status = bit_or n.cop_status ide_irq;
          }
          else record n {
            cpu_status = clear_bits n.cpu_status ide_irq;
            cop_status = clear_bits n.cop_status ide_irq;
          };
    }

-- It leaves `dma_pending`'s clearing and the rest to one update of the registers.
unfoldable pub cancel_transfer : State → State
cancel_transfer s = record s {
  disk = record s.disk {
    transfer_kind = transfer_none;
    dma_pending = false;
    pio_data_pending = false;
    pio_ready_irq = false;
    pio_completion_pending = false;
    nondata_pending = false;
    pending_multiple_update = false;
    pending_error = 0;
    data_index = 0;
    sectors_remaining = 0;
  };
}

unfoldable pub finish_transfer : State → Bool → State
unfolding set_ide_irq
finish_transfer s raise_irq =
    let t = record s {
      disk = record s.disk {
        status = ready;
        transfer_kind = transfer_none;
        pio_data_pending = false;
        pio_ready_irq = false;
        pio_completion_pending = false;
        nondata_pending = false;
        data_index = 0;
        sectors_remaining = 0;
      };
    } in
    if raise_irq then set_ide_irq t true else t

unfoldable pub schedule_pio_data : State → Bool → State
unfolding set_ide_irq
schedule_pio_data s raise_irq =
    set_ide_irq
      (record s {
        disk = record s.disk {
          status = ata_bsy;
          pio_data_pending = true;
          pio_ready_irq = raise_irq;
          pio_completion_pending = false;
          nondata_pending = false;
        };
      })
      false

unfoldable pub schedule_pio_completion : State → State
unfolding set_ide_irq
schedule_pio_completion s =
    set_ide_irq
      (record s {
        disk = record s.disk {
          status = ata_bsy;
          pio_data_pending = false;
          pio_ready_irq = false;
          pio_completion_pending = true;
          nondata_pending = false;
        };
      })
      false

unfoldable pub schedule_nondata_command : State → ℕ → Bool → ℕ → State
unfolding set_ide_irq
schedule_nondata_command s error update_multiple multiple_count =
    set_ide_irq
      (record s {
        disk = record s.disk {
          pending_feature = s.disk.error;
          pending_error = error;
          pending_multiple_update = update_multiple;
          pending_multiple_count = multiple_count;
          status = ata_bsy;
          transfer_kind = transfer_none;
          pio_data_pending = false;
          pio_ready_irq = false;
          pio_completion_pending = false;
          nondata_pending = true;
          dma_pending = false;
          data_index = 0;
          sectors_remaining = 0;
        };
      })
      false

unfoldable pub schedule_command_abort : State → State
unfolding schedule_nondata_command
schedule_command_abort s = schedule_nondata_command s error_abort false 0

-- The `multiple` update that a completed SET MULTIPLE MODE makes.
unfoldable pub apply_multiple : State → State
apply_multiple s =
    if (s.disk.pending_error == 0) && s.disk.pending_multiple_update
    then build_identify
        (record s { disk = record s.disk { multiple_count = s.disk.pending_multiple_count } })
    else s

unfoldable pub complete_nondata_command : State → State
unfolding apply_multiple set_ide_irq
complete_nondata_command s =
    let error = s.disk.pending_error in
    let t = apply_multiple s in
    set_ide_irq
      (record t {
        disk = record t.disk {
          error = error;
          status = if error == 0 then ready else failed;
          transfer_kind = transfer_none;
          pio_data_pending = false;
          pio_ready_irq = false;
          pio_completion_pending = false;
          nondata_pending = false;
          pending_multiple_update = false;
          pending_error = 0;
          data_index = 0;
          sectors_remaining = 0;
        };
      })
      true

unfoldable pub assert_soft_reset : State → State
unfolding cancel_transfer set_ide_irq
assert_soft_reset s =
    let t = cancel_transfer s in
    set_ide_irq
      (record t {
        disk = record t.disk {
          soft_reset_asserted = true;
          soft_reset_pending = false;
          status = ata_bsy;
        };
      })
      false

unfoldable pub release_soft_reset : State → State
unfolding set_ide_irq
release_soft_reset s =
    set_ide_irq
      (record s {
        disk = record s.disk {
          soft_reset_asserted = false;
          soft_reset_pending = true;
          status = ata_bsy;
        };
      })
      false

unfoldable pub complete_soft_reset : State → State
unfolding cancel_transfer set_ide_irq
complete_soft_reset s =
    let t = cancel_transfer s in
    set_ide_irq
      (build_identify (record t {
        disk = record t.disk {
          soft_reset_pending = false;
          command = 0;
          error = 1;
          sector_count = 1;
          selected_lba = 1;
          transfer_lba = 1;
          device = 0;
          multiple_count = 0;
          status = ready;
        };
      }))
      false
