-- ===== src/Disk/Errors.antt =====
-- Commands that fail: which, with what error, and what the guest sees.
use mathlib.Core.Path.{subst}
use nano1g_unicorn_c.Base.{
  ℕ, ◌<◌, Bool, true, false, ◌||◌, leb, ltb, ◌==◌, if◌then◌else◌, Bool-cases, inl, inr, Option,
  some, none, ◌≡◌, ◌≢◌, arith, refl, sym, ◌∙◌,
}
use nano1g_unicorn_c.Word.{u8}
use nano1g_unicorn_c.State.{State, transfer_none}
use nano1g_unicorn_c.Disk.Identify.{lba_in_range, sector_count_of}
use nano1g_unicorn_c.Disk.Control.{
  ata_bsy, failed, schedule_nondata_command, schedule_command_abort, error_abort,
  error_id_not_found,
}
use nano1g_unicorn_c.Disk.Registers.{
  disk_tick, disk_write, taskfile_write, command_write, start_read, start_write, start_dma,
  set_multiple_mode,
}
use nano1g_unicorn_c.Disk.Reading.{AcceptsCommand}

abbrev pub is_multiple : ℕ → Bool
is_multiple c = (c == 0xc4) || (c == 0xc5)

-- READ and WRITE SECTORS, with their EXT forms, and the four DMA commands.
abbrev pub is_sector_command : ℕ → Bool
is_sector_command c =
    (c == 0x20)
    || ((c == 0x24)
        || ((c == 0x30)
            || ((c == 0x34) || ((c == 0xc8) || ((c == 0xc9) || ((c == 0xca) || (c == 0xcb)))))))

-- The commands that transfer nothing: SET FEATURES, STANDBY IMMEDIATE, FLUSH CACHE.
abbrev pub is_plain : ℕ → Bool
is_plain c = (c == 0xef) || ((c == 0xe0) || (c == 0xe7))

-- The error that a command ends with, if it fails.
abbrev pub command_error : State → ℕ → Option ℕ
command_error s c =
    let range =
      if ltb s.disk.selected_lba (sector_count_of s.disk.size)
      then none
      else some error_id_not_found in
    if is_sector_command c
    then range
    else if is_multiple c
    then (if s.disk.multiple_count == 0 then some error_abort else range)
    else if c == 0xc6
    then (if leb s.disk.sector_count 1 then none else some error_abort)
    else if is_plain c || (c == 0xec)
    then none
    else some error_abort

-- Waiting to report an error at the next tick.
record WillFail (s : State) (e : ℕ) : Type 0 where
  busy : s.disk.status ≡ ata_bsy
  pending : s.disk.nondata_pending ≡ true
  error_is : s.disk.pending_error ≡ e
  no_data : s.disk.pio_data_pending ≡ false
  no_completion : s.disk.pio_completion_pending ≡ false
  no_dma : s.disk.dma_pending ≡ false
  no_reset : s.disk.soft_reset_asserted ≡ false
  no_reset_pending : s.disk.soft_reset_pending ≡ false

-- What the guest then sees: status ERR, the error, the interrupt, and no transfer.
pub record HasFailed (s : State) (e : ℕ) : Type 0 where
  pub shown : s.disk.status ≡ failed
  pub error_is : s.disk.error ≡ e
  pub irq : s.disk.irq_pending ≡ true
  pub kind_is : s.disk.transfer_kind ≡ transfer_none
  pub left_is : s.disk.sectors_remaining ≡ 0

in_range :
    (s : State)
    → lba_in_range s s.disk.selected_lba ≡ ltb s.disk.selected_lba (sector_count_of s.disk.size)
unfolding lba_in_range
in_range s = refl

-- A transfer that starts outside the disk.
start_read-out :
    (s : State)
    → lba_in_range s s.disk.selected_lba ≡ false
    → start_read s ≡ schedule_nondata_command s error_id_not_found false 0
unfolding start_read
start_read-out s out = rw out

start_write-out :
    (s : State)
    → lba_in_range s s.disk.selected_lba ≡ false
    → start_write s ≡ schedule_nondata_command s error_id_not_found false 0
unfolding start_write
start_write-out s out = rw out

start_dma-out :
    (s : State) (w : Bool)
    → lba_in_range s s.disk.selected_lba ≡ false
    → start_dma s w ≡ schedule_nondata_command s error_id_not_found false 0
unfolding start_dma
start_dma-out s w out = rw out

abbrev with_command : State → ℕ → State
with_command s c = record s { disk = record s.disk { command = u8 c } }

-- The three classes of failing commands all schedule the error.
module _ (s : State) (c e : ℕ) (small : c < 256) where
  fails_out_of_range :
      is_sector_command c ≡ true
      → command_error s c ≡ some e
      → command_write s c ≡ schedule_nondata_command (with_command s c) e false 0
  unfolding command_write
  fails_out_of_range k h = ground (
    arith,
    start_read-out (with_command s c),
    start_write-out (with_command s c),
    start_dma-out (with_command s c) false,
    start_dma-out (with_command s c) true,
    in_range (with_command s c),
  )

  fails_multiple :
      is_sector_command c ≡ false
      → (is_multiple c || (c == 0xc6)) ≡ true
      → command_error s c ≡ some e
      → command_write s c ≡ schedule_nondata_command (with_command s c) e false 0
  unfolding command_write schedule_command_abort set_multiple_mode
  fails_multiple k m h = ground (
    arith,
    start_read-out (with_command s c),
    start_write-out (with_command s c),
    in_range (with_command s c),
  )

  fails_unknown :
      is_sector_command c ≡ false
      → (is_multiple c || (c == 0xc6)) ≡ false
      → command_error s c ≡ some e
      → command_write s c ≡ schedule_nondata_command (with_command s c) e false 0
  unfolding command_write schedule_command_abort
  fails_unknown k m h = ground arith

  fails :
      command_error s c ≡ some e
      → command_write s c ≡ schedule_nondata_command (with_command s c) e false 0
  fails h = elim (Bool-cases (is_sector_command c)) [
    | inl k ↦ fails_out_of_range k h
    | inr k ↦ elim (Bool-cases (is_multiple c || (c == 0xc6))) [
      | inl m ↦ fails_multiple k m h
      | inr m ↦ fails_unknown k m h
    ]
  ]

disk_write-command :
    (s : State) (c : ℕ) → AcceptsCommand s → disk_write s 0x1fc 1 c ≡ command_write s c
unfolding disk_write taskfile_write
disk_write-command s c a = ground arith

schedule-WillFail :
    (s : State) (e : ℕ)
    → AcceptsCommand s
    → WillFail (schedule_nondata_command s e false 0) e
      × ((schedule_nondata_command s e false 0).disk.image ≡ s.disk.image)
unfolding schedule_nondata_command
schedule-WillFail s e a = ground arith

disk_tick-WillFail :
    (s : State) (e : ℕ)
    → e ≢ 0
    → WillFail s e
    → HasFailed (disk_tick s) e × ((disk_tick s).disk.image ≡ s.disk.image)
unfolding disk_tick
disk_tick-WillFail s e pos w = ground arith

command_error-ne-zero : (s : State) (c e : ℕ) → command_error s c ≡ some e → e ≢ 0
command_error-ne-zero s c e h = ground arith

-- A command given to a disk that accepts commands but must refuse this one (a start outside the
-- disk, a MULTIPLE command with the mode off, a mode that it has not, an unknown command) ends at the
-- next tick with the status ERR, its error, an interrupt pending and no transfer, and leaves the
-- image as it was.
pub refused_command :
    (s : State) (c e : ℕ)
    → c < 256
    → AcceptsCommand s
    → command_error s c ≡ some e
    → HasFailed (disk_tick (disk_write s 0x1fc 1 c)) e
      × ((disk_tick (disk_write s 0x1fc 1 c)).disk.image ≡ s.disk.image)
refused_command s c e small a h =
    let (waits, kept) = schedule-WillFail (with_command s c) e (record {
      no_dma = a.no_dma;
      no_reset = a.no_reset;
      no_reset_pending = a.no_reset_pending;
    }) in
    let (ends, kept') =
      disk_tick-WillFail (schedule_nondata_command (with_command s c) e false 0) e
        (command_error-ne-zero s c e h) waits in
    subst (λ t. HasFailed (disk_tick t) e × ((disk_tick t).disk.image ≡ s.disk.image))
      (sym (disk_write-command s c a ∙ fails s c e small h)) (ends, kept' ∙ kept)
