-- ===== src/Disk/Words.antt =====
-- The invariant of the disk is kept by the words of a transfer, and by every read of its registers.
use nano1g_unicorn_c.Base.{
  ℕ, ◌+◌, ◌*◌, ◌<◌, Bool, true, false, not, ◌&&◌, ◌||◌, ◌==◌, if◌then◌else◌, bit_and, ◌≡◌, ◌≢◌,
  arith, Bool-cases, inl, inr, ◌∙◌, Option-cases,
}
use nano1g_unicorn_c.Word.{test_bits}
use nano1g_unicorn_c.State.{State, transfer_none}
use nano1g_unicorn_c.Disk.Control.{
  data_ready, finish_transfer, schedule_pio_data, schedule_pio_completion, schedule_nondata_command,
}
use nano1g_unicorn_c.Disk.Pio.{
  read_identify_word, read_sector_word, write_sector_word, disk_word, data_read, data_write,
  is_write,
}
use nano1g_unicorn_c.Disk.Registers.{taskfile_read, disk_read, normalize_taskfile_offset}
use nano1g_unicorn_c.Disk.Invariant.{
  IsValid, drq_status, if-IsValid, when-IsValid, schedule_nondata-IsValid, finish_transfer-IsValid,
  set_ide_irq-IsValid, schedule_pio_data-IsValid, schedule_pio_completion-IsValid,
}
use nano1g_unicorn_c.State.{Counters}
use nano1g_unicorn_c.Base.{leb, ◌*◌, ◌+◌}
use nano1g_unicorn_c.Word.{u16, u64}
use nano1g_unicorn_c.Disk.Identify.{lba_in_range}
use nano1g_unicorn_c.Disk.Control.{
  schedule_nondata_command, schedule_pio_data, schedule_pio_completion, error_id_not_found,
}
use nano1g_unicorn_c.Disk.Pio.{store_image_word, next_sector}

-- A disk that shows DRQ is in no reset, and its transfer is one.
calm :
    (s : State)
    → IsValid s
    → s.disk.status ≡ data_ready
    → (s.disk.soft_reset_asserted ≡ false)
      × (s.disk.soft_reset_pending ≡ false)
      × (s.disk.transfer_kind ≢ transfer_none)
calm s v d = ground arith

abbrev indexed : State → ℕ → State
indexed s i = record s { disk = record s.disk { data_index = i } }

indexed-IsValid : (s : State) (i : ℕ) → IsValid s → i < 512 → IsValid (indexed s i)
indexed-IsValid s i v h = ground arith

next_sector-IsValid : (s : State) (i : ℕ) → IsValid s → IsValid (next_sector (indexed s i))
unfolding next_sector
next_sector-IsValid s i v = ground arith

-- The phase after a word, for both directions: `last` is what follows the last sector.
after_word : State → ℕ → State → State
after_word s i last =
    let n = next_sector (indexed s i) in
    if leb 512 i
    then (if n.disk.sectors_remaining == 0
        then last
        else if not (lba_in_range n n.disk.transfer_lba)
        then schedule_nondata_command n error_id_not_found false 0
        else schedule_pio_data n true)
    else indexed s i

after_word-IsValid :
    (s : State) (i : ℕ) (last : State)
    → IsValid s
    → s.disk.status ≡ data_ready
    → IsValid last
    → IsValid (after_word s i last)
unfolding after_word next_sector
after_word-IsValid s i last v d l =
    let (a, p, k) = calm s v d in
    let n = next_sector (indexed s i) in
    let w = next_sector-IsValid s i v in
    when-IsValid (leb 512 i) _ _
      (λ h. if-IsValid (n.disk.sectors_remaining == 0) _ _ l (
        if-IsValid (not (lba_in_range n n.disk.transfer_lba)) _ _
          (schedule_nondata-IsValid n error_id_not_found false 0 w a p)
          (schedule_pio_data-IsValid n true w a p k)))
      (λ h. indexed-IsValid s i v (ground arith))

counted-IsValid : (s : State) (c : Counters) → IsValid s → IsValid (record s { counters = c })
counted-IsValid s c v = ground arith

store_image_word-IsValid :
    (s : State) (off value : ℕ)
    → IsValid s
    → IsValid (store_image_word s off value)
      × ((store_image_word s off value).disk.status ≡ s.disk.status)
unfolding store_image_word
store_image_word-IsValid s off value v = ground arith

module _ (s : State) (v : IsValid s) (d : s.disk.status ≡ data_ready) where
  read_identify_word-IsValid : IsValid (read_identify_word s).1
  unfolding read_identify_word
  read_identify_word-IsValid = ground arith

  read_sector_word-IsValid : IsValid (read_sector_word s).1
  unfolding read_sector_word after_word
  read_sector_word-IsValid =
      let u = record s {
        counters = record s.counters { disk_reads = u64 (s.counters.disk_reads + 1) };
      } in
      let i = u16 (s.disk.data_index + 2) in
      let (a, p, k) = calm s v d in
      let w = counted-IsValid s u.counters v in
      after_word-IsValid u i (finish_transfer (next_sector (indexed u i)) false) w d
        (finish_transfer-IsValid (next_sector (indexed u i)) false (next_sector-IsValid u i w) a p)

  write_sector_word-IsValid : (value : ℕ) → IsValid (write_sector_word s value)
  unfolding write_sector_word after_word
  write_sector_word-IsValid value =
      let u = store_image_word s (s.disk.transfer_lba * 512 + s.disk.data_index) value in
      let i = u16 (u.disk.data_index + 2) in
      let (w, e) =
        store_image_word-IsValid s (s.disk.transfer_lba * 512 + s.disk.data_index) value v in
      let (a, p, k) = calm u w (e ∙ d) in
      after_word-IsValid u i (schedule_pio_completion (next_sector (indexed u i))) w (e ∙ d) (
        schedule_pio_completion-IsValid (next_sector (indexed u i)) (next_sector-IsValid u i w) a p)

read_if-IsValid :
    (t : Bool) (a b : ℕ × State) → IsValid a.1 → IsValid b.1 → IsValid (if t then a else b).1
read_if-IsValid true a b v w = v
read_if-IsValid false a b v w = w

disk_word-IsValid : (s : State) → IsValid s → IsValid (disk_word s).1
unfolding disk_word
disk_word-IsValid s v =
    ground (arith, drq_status s v, read_identify_word-IsValid s v, read_sector_word-IsValid s v)

data_read-IsValid : (s : State) (size : ℕ) → IsValid s → IsValid (data_read s size).1
unfolding data_read
data_read-IsValid s size v = elim (Bool-cases (size == 4)) [
  | inl h ↦ rw h (disk_word-IsValid (disk_word s).1 (disk_word-IsValid s v))
  | inr h ↦ rw h (disk_word-IsValid s v)
]

taskfile_read-IsValid :
    (s : State) (reg size : ℕ) → IsValid s → IsValid (taskfile_read s reg size).1
unfolding taskfile_read
taskfile_read-IsValid s reg size v =
    ground (arith, data_read-IsValid s size v, set_ide_irq-IsValid s false v)

-- From a valid disk, every read of a register of the controller, at any offset and of any size,
-- leaves it valid: at most one phase is pending and shown as busy, and all counts are in range.
disk_read-IsValid : (s : State) (offset size : ℕ) → IsValid s → IsValid (disk_read s offset size).1
unfolding disk_read
disk_read-IsValid s offset size v = read_if-IsValid (offset == 0x28) _ _ v (
    read_if-IsValid (offset == 0x2c) _ _ v (
      read_if-IsValid (offset == 0x3f8) _ _ v (
        read_if-IsValid (offset == 0x400) _ _ v (
          read_if-IsValid (offset == 0x404) _ _ v (
            read_if-IsValid (offset == 0x408) _ _ v (
              read_if-IsValid (offset == 0x40c) _ _ v (
                read_if-IsValid (offset == 0x410) _ _ v
                  (elim (Option-cases (normalize_taskfile_offset offset)) [
                    | inl e ↦ rw e v
                    | inr (reg, e) ↦ rw e (taskfile_read-IsValid s reg size v)
                  ]))))))))

pub data_write-IsValid :
    (s : State) (size value : ℕ) → IsValid s → IsValid (data_write s size value)
unfolding data_write
data_write-IsValid s size value v =
    let shown = λ (u : State). (test_bits u.disk.status 0x08) in
    when-IsValid (not (shown s) || not (is_write s.disk.transfer_kind)) _ _ (λ h. v)
      (λ h.
        let first =
          write_sector_word-IsValid s v (drq_status s v (ground arith)) (bit_and value 0xffff) in
        when-IsValid ((size == 4) && shown (write_sector_word s (bit_and value 0xffff))) _ _
          (λ k. write_sector_word-IsValid _ first (drq_status _ first (ground arith)) _)
          (λ k. first))
