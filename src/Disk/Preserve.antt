-- ===== src/Disk/Preserve.antt =====
-- The invariant of the disk is kept by every write of its registers and by every tick.
use nano1g_unicorn_c.Base.{
  ℕ, ◌-◌, Bool, true, false, ◌&&◌, ◌||◌, leb, ◌==◌, if◌then◌else◌, bit_and, ◌≡◌, arith, inl, inr,
  Option-cases, ◌∙◌,
}
use nano1g_unicorn_c.Word.{u8, test_bits}
use nano1g_unicorn_c.State.{State}
use nano1g_unicorn_c.Disk.Control.{
  finish_transfer, schedule_command_abort, error_abort, complete_nondata_command,
}
use nano1g_unicorn_c.Disk.Identify.{build_identify}
use nano1g_unicorn_c.Disk.Dma.{schedule_dma, complete_dma_transfer}
use nano1g_unicorn_c.Disk.Registers.{
  open_data_phase, disk_tick, set_multiple_mode, command_write, taskfile_write, disk_write,
  normalize_taskfile_offset,
}
use nano1g_unicorn_c.Disk.Words.{data_write-IsValid}
use nano1g_unicorn_c.Disk.Moving.{complete_dma-IsValid}
use nano1g_unicorn_c.Disk.Invariant.{
  IsValid, if-IsValid, when-IsValid, schedule_nondata-IsValid, finish_transfer-IsValid,
  set_ide_irq-IsValid, complete_nondata-IsValid, open_data_phase-IsValid,
  device_control_write-IsValid, complete_soft_reset-IsValid, start_identify-IsValid,
  start_read-IsValid, start_write-IsValid, start_dma-IsValid,
}

-- The command that the state `s` has just been given.
module _ (s : State) (v : IsValid s) (a : s.disk.soft_reset_asserted ≡ false)
    (p : s.disk.soft_reset_pending ≡ false) where
  abort-IsValid : IsValid (schedule_command_abort s)
  unfolding schedule_command_abort
  abort-IsValid = schedule_nondata-IsValid s error_abort false 0 v a p

  set_multiple-IsValid : IsValid (set_multiple_mode s)
  unfolding set_multiple_mode
  set_multiple-IsValid =
      let count = s.disk.sector_count in
      if-IsValid ((count == 0) || (leb count 1 && (bit_and count (count - 1) == 0))) _ _
        (schedule_nondata-IsValid s 0 true count v a p) abort-IsValid

with_command-IsValid :
    (s : State) (c : ℕ) → IsValid s → IsValid (record s { disk = record s.disk { command = c } })
with_command-IsValid s c v = ground arith

command_write-IsValid :
    (s : State) (value : ℕ)
    → IsValid s
    → s.disk.soft_reset_asserted ≡ false
    → s.disk.soft_reset_pending ≡ false
    → IsValid (command_write s value)
unfolding command_write
command_write-IsValid s value v a p =
    let t = record s { disk = record s.disk { command = u8 value } } in
    let w = with_command-IsValid s (u8 value) v in
    let c = u8 value in
    let off = s.disk.multiple_count == 0 in
    let abort = abort-IsValid t w a p in
    let reads = start_read-IsValid t w a p in
    let writes = start_write-IsValid t w a p in
    let plain = (c == 0xef) || ((c == 0xe0) || (c == 0xe7)) in
    if-IsValid (c == 0xec) _ _ (start_identify-IsValid t w a p) (
      if-IsValid ((c == 0x20) || (c == 0x24)) _ _ reads (
        if-IsValid (c == 0xc4) _ _ (if-IsValid off _ _ abort reads) (
          if-IsValid ((c == 0x30) || (c == 0x34)) _ _ writes (
            if-IsValid (c == 0xc5) _ _ (if-IsValid off _ _ abort writes) (
              if-IsValid ((c == 0xc8) || (c == 0xc9)) _ _ (start_dma-IsValid t false w a p) (
                if-IsValid ((c == 0xca) || (c == 0xcb)) _ _ (start_dma-IsValid t true w a p) (
                  if-IsValid (c == 0xc6) _ _ (set_multiple-IsValid t w a p)
                    (if-IsValid plain _ _ (schedule_nondata-IsValid t 0 false 0 w a p) abort))))))))

-- The registers that the invariant does not speak of.
module _ (s : State) (n : ℕ) (v : IsValid s) where
  error-IsValid : IsValid (record s { disk = record s.disk { error = n } })
  error-IsValid = ground arith

  sector_count-IsValid : IsValid (record s { disk = record s.disk { sector_count = u8 n } })
  sector_count-IsValid = ground arith

  lba-IsValid : IsValid (record s { disk = record s.disk { selected_lba = n } })
  lba-IsValid = ground arith

  device-IsValid :
      (d : ℕ) → IsValid (record s { disk = record s.disk { selected_lba = n; device = d } })
  device-IsValid d = ground arith

  dma_status-IsValid : IsValid (record s { disk = record s.disk { dma_status = n } })
  dma_status-IsValid = ground arith

  dma_length-IsValid : IsValid (record s { disk = record s.disk { dma_length = n } })
  dma_length-IsValid = ground arith

  dma_addr-IsValid : IsValid (record s { disk = record s.disk { dma_addr = n } })
  dma_addr-IsValid = ground arith

  dma_unknown-IsValid : IsValid (record s { disk = record s.disk { dma_unknown = n } })
  dma_unknown-IsValid = ground arith

  ide0_cfg-IsValid : IsValid (record s { disk = record s.disk { ide0_cfg = n } })
  ide0_cfg-IsValid = ground arith

  ide1_cfg-IsValid : IsValid (record s { disk = record s.disk { ide1_cfg = n } })
  ide1_cfg-IsValid = ground arith

  dma_control-IsValid :
      IsValid (schedule_dma (record s { disk = record s.disk { dma_control = n } }))
  unfolding schedule_dma
  dma_control-IsValid = ground arith

taskfile_write-IsValid :
    (s : State) (reg size value : ℕ)
    → IsValid s
    → s.disk.soft_reset_asserted ≡ false
    → s.disk.soft_reset_pending ≡ false
    → IsValid (taskfile_write s reg size value)
unfolding taskfile_write
taskfile_write-IsValid s reg size value v a p =
    if-IsValid (reg == 0x00) _ _ (data_write-IsValid s size value v) (
      if-IsValid (reg == 0x04) _ _ (error-IsValid s _ v) (
        if-IsValid (reg == 0x08) _ _ (sector_count-IsValid s _ v) (
          if-IsValid (reg == 0x0c) _ _ (lba-IsValid s _ v) (
            if-IsValid (reg == 0x10) _ _ (lba-IsValid s _ v) (
              if-IsValid (reg == 0x14) _ _ (lba-IsValid s _ v) (
                if-IsValid (reg == 0x18) _ _ (device-IsValid s _ v _)
                  (if-IsValid (reg == 0x1c) _ _ (command_write-IsValid s value v a p) v)))))))

-- From a valid disk, every write of a register of the controller, of any offset, size and value,
-- leaves it valid: commands, data, DMA set-up and the reset bit included.
pub disk_write-IsValid :
    (s : State) (offset size value : ℕ) → IsValid s → IsValid (disk_write s offset size value)
unfolding disk_write
disk_write-IsValid s offset size value v =
    let acked = if-IsValid (test_bits value 0x18) _ _ (set_ide_irq-IsValid s false v) v in
    let in_reset = s.disk.soft_reset_asserted || s.disk.soft_reset_pending in
    let guarded = λ (reg : ℕ).
      (when-IsValid in_reset _ _ (λ h. v)
        (λ h. taskfile_write-IsValid s reg size value v (ground arith) (ground arith))) in
    if-IsValid (offset == 0x28) _ _ (ide0_cfg-IsValid _ _ acked) (
      if-IsValid (offset == 0x2c) _ _ (ide1_cfg-IsValid s _ v) (
        if-IsValid (offset == 0x3f8) _ _ (device_control_write-IsValid s value v) (
          if-IsValid (offset == 0x400) _ _ (dma_control-IsValid s value v) (
            if-IsValid (offset == 0x404) _ _ (dma_status-IsValid s value v) (
              if-IsValid (offset == 0x408) _ _ (dma_length-IsValid s value v) (
                if-IsValid (offset == 0x40c) _ _ (dma_addr-IsValid s value v) (
                  if-IsValid (offset == 0x410) _ _ (dma_unknown-IsValid s value v)
                    (elim (Option-cases (normalize_taskfile_offset offset)) [
                      | inl e ↦ rw e v
                      | inr (reg, e) ↦ rw e (guarded reg)
                    ]))))))))

-- The phases of a tick, none of which is a reset's.
record Running (s : State) : Type 0 where
  valid : IsValid s
  released : s.disk.soft_reset_asserted ≡ false
  started : s.disk.soft_reset_pending ≡ false

complete-reset :
    (s : State)
    → ((complete_nondata_command s).disk.soft_reset_asserted ≡ s.disk.soft_reset_asserted)
      × ((complete_nondata_command s).disk.soft_reset_pending ≡ s.disk.soft_reset_pending)
unfolding complete_nondata_command build_identify
complete-reset s = ground arith

finish-reset :
    (s : State)
    → ((finish_transfer s true).disk.soft_reset_asserted ≡ s.disk.soft_reset_asserted)
      × ((finish_transfer s true).disk.soft_reset_pending ≡ s.disk.soft_reset_pending)
unfolding finish_transfer
finish-reset s = ground arith

complete-Running : (s : State) → Running s → Running (complete_nondata_command s)
complete-Running s r =
    let (a, p) = complete-reset s in
    record {
      valid = complete_nondata-IsValid s r.valid r.released r.started;
      released = a ∙ r.released;
      started = p ∙ r.started;
    }

finish-Running : (s : State) → Running s → Running (finish_transfer s true)
finish-Running s r =
    let (a, p) = finish-reset s in
    record {
      valid = finish_transfer-IsValid s true r.valid r.released r.started;
      released = a ∙ r.released;
      started = p ∙ r.started;
    }

if-Running : (t : Bool) (a b : State) → Running a → Running b → Running (if t then a else b)
if-Running true a b v w = v
if-Running false a b v w = w

open_pending-IsValid :
    (s : State) → IsValid s → IsValid (if s.disk.pio_data_pending then open_data_phase s else s)
open_pending-IsValid s v =
    when-IsValid s.disk.pio_data_pending _ _
      (λ h. open_data_phase-IsValid s v h (v.data_transfers h)) (λ h. v)

-- From a valid disk, a tick leaves it valid, whatever it completes: a command, a data phase, a
-- transfer to or from memory, or a soft reset.
pub disk_tick-IsValid : (s : State) → IsValid s → IsValid (disk_tick s)
unfolding disk_tick
disk_tick-IsValid s v =
    when-IsValid s.disk.soft_reset_asserted _ _ (λ h. v)
      (λ h.
        when-IsValid s.disk.soft_reset_pending _ _ (λ k. complete_soft_reset-IsValid s v h)
          (λ k.
            let r : Running s = record { valid = v; released = h; started = k } in
            let ra =
              if-Running s.disk.nondata_pending (complete_nondata_command s) s
                (complete-Running s r) r in
            let a = if s.disk.nondata_pending then complete_nondata_command s else s in
            let b = if a.disk.pio_completion_pending then finish_transfer a true else a in
            let rb =
              if-Running a.disk.pio_completion_pending (finish_transfer a true) a
                (finish-Running a ra) ra in
            let c = if b.disk.pio_data_pending then open_data_phase b else b in
            let rc = open_pending-IsValid b rb.valid in
            if-IsValid c.disk.dma_pending (complete_dma_transfer c) c (complete_dma-IsValid c rc)
              rc))
