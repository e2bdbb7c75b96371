-- ===== src/Disk/Invariant.antt =====
-- The invariant of the disk's registers, and the steps of commands and completions that keep it.
use nano1g_unicorn_c.Base.{
  ℕ, ◌<◌, ◌≤◌, Bool, true, false, ◌||◌, if◌then◌else◌, ◌≡◌, ◌≢◌, ◌⊎◌, arith, refl,
}
use nano1g_unicorn_c.Word.{test_bits}
use nano1g_unicorn_c.State.{State, transfer_none}
use nano1g_unicorn_c.Disk.Identify.{build_identify}
use nano1g_unicorn_c.Disk.Control.{
  ata_bsy, ready, failed, data_ready, set_ide_irq, finish_transfer, schedule_pio_data,
  schedule_pio_completion, schedule_nondata_command, complete_nondata_command, complete_soft_reset,
}
use nano1g_unicorn_c.Disk.Registers.{
  start_identify, start_read, start_write, start_dma, open_data_phase, device_control_write,
}

-- At most one phase is pending, and the guest sees BSY while one is or a reset goes on; a reset has
-- cancelled every transfer; DRQ is shown only for a transfer; the counts stay in range.
pub record IsValid (s : State) : Type 0 where
  pub data_alone :
      s.disk.pio_data_pending ≡ true
      → (s.disk.pio_completion_pending ≡ false) × (s.disk.nondata_pending ≡ false)
  pub completion_alone : s.disk.pio_completion_pending ≡ true → s.disk.nondata_pending ≡ false
  pub busy :
      (s.disk.pio_data_pending || s.disk.pio_completion_pending || s.disk.nondata_pending
          || s.disk.soft_reset_asserted || s.disk.soft_reset_pending)
        ≡ true
      → s.disk.status ≡ ata_bsy
  pub reset_quiet :
      (s.disk.soft_reset_asserted || s.disk.soft_reset_pending) ≡ true
      → (s.disk.pio_data_pending ≡ false)
        × (s.disk.pio_completion_pending ≡ false)
        × (s.disk.nondata_pending ≡ false)
        × (s.disk.transfer_kind ≡ transfer_none)
  pub reset_bit : test_bits s.disk.device_control 0x04 ≡ s.disk.soft_reset_asserted
  pub reset_once : s.disk.soft_reset_asserted ≡ true → s.disk.soft_reset_pending ≡ false
  pub status_is :
      (s.disk.status ≡ 0x40)
      ⊎ ((s.disk.status ≡ ata_bsy)
          ⊎ ((s.disk.status ≡ ready) ⊎ ((s.disk.status ≡ failed) ⊎ (s.disk.status ≡ data_ready))))
  pub drq_transfers : s.disk.status ≡ data_ready → s.disk.transfer_kind ≢ transfer_none
  pub data_transfers : s.disk.pio_data_pending ≡ true → s.disk.transfer_kind ≢ transfer_none
  pub index_in : s.disk.data_index < 512
  pub left_in : s.disk.sectors_remaining ≤ 256
  pub count_in : s.disk.sector_count < 256

-- DRQ is seen in one status only.
pub drq_status :
    (s : State) → IsValid s → test_bits s.disk.status 0x08 ≡ true → s.disk.status ≡ data_ready
drq_status s v h = grind arith

-- A test between two states, and between two reads.
pub if-IsValid : (t : Bool) (a b : State) → IsValid a → IsValid b → IsValid (if t then a else b)
if-IsValid true a b v w = v
if-IsValid false a b v w = w

pub when-IsValid :
    (t : Bool) (a b : State)
    → (t ≡ true → IsValid a)
    → (t ≡ false → IsValid b)
    → IsValid (if t then a else b)
when-IsValid true a b v w = v refl
when-IsValid false a b v w = w refl

pub schedule_nondata-IsValid :
    (s : State) (error : ℕ) (update : Bool) (count : ℕ)
    → IsValid s
    → s.disk.soft_reset_asserted ≡ false
    → s.disk.soft_reset_pending ≡ false
    → IsValid (schedule_nondata_command s error update count)
unfolding schedule_nondata_command
schedule_nondata-IsValid s error update count v a p = ground arith

pub finish_transfer-IsValid :
    (s : State) (irq : Bool)
    → IsValid s
    → s.disk.soft_reset_asserted ≡ false
    → s.disk.soft_reset_pending ≡ false
    → IsValid (finish_transfer s irq)
unfolding finish_transfer
finish_transfer-IsValid s irq v a p = ground arith

pub set_ide_irq-IsValid : (s : State) (irq : Bool) → IsValid s → IsValid (set_ide_irq s irq)
unfolding set_ide_irq
set_ide_irq-IsValid s irq v = ground arith

pub complete_nondata-IsValid :
    (s : State)
    → IsValid s
    → s.disk.soft_reset_asserted ≡ false
    → s.disk.soft_reset_pending ≡ false
    → IsValid (complete_nondata_command s)
unfolding complete_nondata_command build_identify
complete_nondata-IsValid s v a p = ground arith

pub open_data_phase-IsValid :
    (s : State)
    → IsValid s
    → s.disk.pio_data_pending ≡ true
    → s.disk.transfer_kind ≢ transfer_none
    → IsValid (open_data_phase s)
unfolding open_data_phase
open_data_phase-IsValid s v h k = ground arith

pub device_control_write-IsValid :
    (s : State) (value : ℕ) → IsValid s → IsValid (device_control_write s value)
unfolding device_control_write
device_control_write-IsValid s value v = ground arith

pub complete_soft_reset-IsValid :
    (s : State) → IsValid s → s.disk.soft_reset_asserted ≡ false → IsValid (complete_soft_reset s)
unfolding complete_soft_reset build_identify
complete_soft_reset-IsValid s v a = ground arith

pub schedule_pio_data-IsValid :
    (s : State) (irq : Bool)
    → IsValid s
    → s.disk.soft_reset_asserted ≡ false
    → s.disk.soft_reset_pending ≡ false
    → s.disk.transfer_kind ≢ transfer_none
    → IsValid (schedule_pio_data s irq)
unfolding schedule_pio_data
schedule_pio_data-IsValid s irq v a p k = ground arith

pub schedule_pio_completion-IsValid :
    (s : State)
    → IsValid s
    → s.disk.soft_reset_asserted ≡ false
    → s.disk.soft_reset_pending ≡ false
    → IsValid (schedule_pio_completion s)
unfolding schedule_pio_completion
schedule_pio_completion-IsValid s v a p = ground arith

pub start_identify-IsValid :
    (s : State)
    → IsValid s
    → s.disk.soft_reset_asserted ≡ false
    → s.disk.soft_reset_pending ≡ false
    → IsValid (start_identify s)
unfolding start_identify build_identify
start_identify-IsValid s v a p = ground arith

pub start_read-IsValid :
    (s : State)
    → IsValid s
    → s.disk.soft_reset_asserted ≡ false
    → s.disk.soft_reset_pending ≡ false
    → IsValid (start_read s)
unfolding start_read
start_read-IsValid s v a p = ground arith

pub start_write-IsValid :
    (s : State)
    → IsValid s
    → s.disk.soft_reset_asserted ≡ false
    → s.disk.soft_reset_pending ≡ false
    → IsValid (start_write s)
unfolding start_write
start_write-IsValid s v a p = ground arith

pub start_dma-IsValid :
    (s : State) (write : Bool)
    → IsValid s
    → s.disk.soft_reset_asserted ≡ false
    → s.disk.soft_reset_pending ≡ false
    → IsValid (start_dma s write)
unfolding start_dma
start_dma-IsValid s write v a p = ground arith
