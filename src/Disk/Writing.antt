-- ===== src/Disk/Writing.antt =====
-- WRITE SECTORS: the guest's words land in the image, in order, and nothing else changes there.
use mathlib.Core.Path.{subst}
use native.Mathlib.Nat.{add_assoc, add-zero}
use nano1g_unicorn_c.Base.{
  ℕ, zero, suc, ◌+◌, ◌-◌, ◌*◌, ◌^◌, ◌<◌, ◌≤◌, true, false, some, Array, store, ◌≡◌, sym, ◌∙◌, ap,
  arith, bit_and,
}
use nano1g_unicorn_c.Word.{u8, shr32}
use nano1g_unicorn_c.State.{State, transfer_write, transfer_none}
use nano1g_unicorn_c.Disk.Identify.{sector_count_of, lba_in_range}
use nano1g_unicorn_c.Disk.Control.{
  data_ready, ata_bsy, ready, finish_transfer, schedule_pio_data, schedule_pio_completion,
}
use nano1g_unicorn_c.Disk.Pio.{store_image_word, write_sector_word, data_write}
use nano1g_unicorn_c.Disk.Guest.{write_words, write_sectors}
use nano1g_unicorn_c.Disk.Reading.{AcceptsCommand, sector_count_of-le}
use nano1g_unicorn_c.Disk.Registers.{
  disk_tick, disk_write, taskfile_write, command_write, start_write, sectors_asked,
}

-- A word into an image, some words, and some sectors of them.
abbrev pub put_word : Array ℕ → ℕ → ℕ → Array ℕ
put_word d off v =
    store (store d off (bit_and (bit_and v 0xffff) 0xff)) (off + 1)
      (u8 (shr32 (bit_and v 0xffff) 8))

unfoldable pub put_words : ℕ → Array ℕ → ℕ → Array ℕ → Array ℕ
put_words zero d off w = d
put_words (suc k) d off w = put_words k (put_word d off (w 0)) (off + 2) (λ i. w (suc i))

unfoldable pub put_sectors : ℕ → Array ℕ → ℕ → Array ℕ → Array ℕ
put_sectors zero d lba w = d
put_sectors (suc n) d lba w =
    put_sectors n (put_words 256 d (lba * 512) w) (lba + 1) (λ i. w (256 + i))

-- The disk is not in reset.
abbrev AcceptsData : State → Type 0
AcceptsData s = (s.disk.soft_reset_asserted ≡ false) × (s.disk.soft_reset_pending ≡ false)

module _ (size : ℕ) where
  -- No step but the transfer's own is in waiting, and the image holds `d`.
  pub record IsWriting (s : State) (d : Array ℕ) : Type 0 where
    pub image_is : s.disk.image ≡ some d
    pub size_is : s.disk.size ≡ size
    pub kind_is : s.disk.transfer_kind ≡ transfer_write
    pub error_is : s.disk.error ≡ 0
    pub no_nondata : s.disk.nondata_pending ≡ false
    pub no_completion : s.disk.pio_completion_pending ≡ false
    pub no_dma : s.disk.dma_pending ≡ false
    pub no_reset : s.disk.soft_reset_asserted ≡ false
    pub no_reset_pending : s.disk.soft_reset_pending ≡ false

  pub record InData (s : State) (d : Array ℕ) (lba index left : ℕ) : Type 0 where
    pub calm : IsWriting s d
    pub shown : s.disk.status ≡ data_ready
    pub lba_is : s.disk.transfer_lba ≡ lba
    pub index_is : s.disk.data_index ≡ index
    pub left_is : s.disk.sectors_remaining ≡ left
    pub nothing_pending : s.disk.pio_data_pending ≡ false

  pub record InGap (s : State) (d : Array ℕ) (lba left : ℕ) : Type 0 where
    pub calm : IsWriting s d
    pub busy : s.disk.status ≡ ata_bsy
    pub lba_is : s.disk.transfer_lba ≡ lba
    pub index_is : s.disk.data_index ≡ 0
    pub left_is : s.disk.sectors_remaining ≡ left
    pub pending : s.disk.pio_data_pending ≡ true

  -- After the last word: busy until the tick that completes the command.
  pub record IsCompleting (s : State) (d : Array ℕ) (lba : ℕ) : Type 0 where
    pub image_is : s.disk.image ≡ some d
    pub size_is : s.disk.size ≡ size
    pub error_is : s.disk.error ≡ 0
    pub lba_is : s.disk.selected_lba ≡ lba
    pub completes : s.disk.pio_completion_pending ≡ true
    pub no_data : s.disk.pio_data_pending ≡ false
    pub no_nondata : s.disk.nondata_pending ≡ false
    pub no_dma : s.disk.dma_pending ≡ false
    pub no_reset : s.disk.soft_reset_asserted ≡ false
    pub no_reset_pending : s.disk.soft_reset_pending ≡ false

  -- The command is over, with its interrupt.
  pub record IsOver (s : State) (d : Array ℕ) (lba : ℕ) : Type 0 where
    pub image_is : s.disk.image ≡ some d
    pub size_is : s.disk.size ≡ size
    pub shown : s.disk.status ≡ ready
    pub error_is : s.disk.error ≡ 0
    pub kind_is : s.disk.transfer_kind ≡ transfer_none
    pub lba_is : s.disk.selected_lba ≡ lba
    pub irq : s.disk.irq_pending ≡ true
    pub accepts : AcceptsCommand s

  AcceptsData-open :
      (s : State) (d : Array ℕ) (lba index left : ℕ) → InData s d lba index left → AcceptsData s
  AcceptsData-open s d lba index left c = (c.calm.no_reset, c.calm.no_reset_pending)

  data_write-InData :
      (s : State) (d : Array ℕ) (lba index left v : ℕ)
      → InData s d lba index left
      → index + 2 < 512
      → lba * 512 + index + 1 < size
      → InData (data_write s 2 v) (put_word d (lba * 512 + index) v) lba (index + 2) left
  unfolding data_write write_sector_word store_image_word
  data_write-InData s d lba index left v c h inside = ground arith

  pub disk_tick-InGap :
      (s : State) (d : Array ℕ) (lba left : ℕ)
      → InGap s d lba left
      → InData (disk_tick s) d lba 0 left
  unfolding disk_tick
  disk_tick-InGap s d lba left c = ground arith

  data_write-next :
      (s : State) (d : Array ℕ) (lba left v : ℕ)
      → InData s d lba 510 (suc (suc left))
      → lba + 1 < sector_count_of size
      → lba * 512 + 511 < size
      → InGap (data_write s 2 v) (put_word d (lba * 512 + 510) v) (lba + 1) (suc left)
  unfolding data_write write_sector_word store_image_word sector_count_of lba_in_range
      schedule_pio_data
  data_write-next s d lba left v c h inside = ground arith

  data_write-last :
      (s : State) (d : Array ℕ) (lba v : ℕ)
      → InData s d lba 510 1
      → lba < 2 ^ 32 - 1
      → lba * 512 + 511 < size
      → IsCompleting (data_write s 2 v) (put_word d (lba * 512 + 510) v) (lba + 1)
  unfolding data_write write_sector_word store_image_word schedule_pio_completion
  data_write-last s d lba v c h inside = ground arith

  disk_tick-IsCompleting :
      (s : State) (d : Array ℕ) (lba : ℕ) → IsCompleting s d lba → IsOver (disk_tick s) d lba
  unfolding disk_tick finish_transfer
  disk_tick-IsCompleting s d lba c = ground arith

  disk_write-data : (s : State) (v : ℕ) → AcceptsData s → disk_write s 0x1e0 2 v ≡ data_write s 2 v
  unfolding disk_write taskfile_write
  disk_write-data s v c = ground arith

  -- The words up to the end of a sector, whatever holds after the last one.
  write_words-end :
      (lba left : ℕ) (P : State → Array ℕ → Type 0)
      → lba * 512 + 511 < size
      → ((s : State) (d : Array ℕ) (v : ℕ)
          → InData s d lba 510 left
          → P (data_write s 2 v) (put_word d (lba * 512 + 510) v))
      → (k : ℕ) (s : State) (d : Array ℕ) (index : ℕ) (w : Array ℕ) → InData s d lba index left
      → index + 2 * suc k ≡ 512
      → P (write_words (suc k) s w) (put_words (suc k) d (lba * 512 + index) w)
  unfolding write_words put_words
  write_words-end lba left P inside last zero s d index w c h =
      let e : 510 ≡ index = omega arith in
      let here = last s d (w 0) (subst (λ i. InData s d lba i left) (sym e) c) in
      subst (λ t. P t (put_word d (lba * 512 + index) (w 0)))
        (sym (disk_write-data s (w 0) (AcceptsData-open s d lba index left c)))
        (subst (λ i. P (data_write s 2 (w 0)) (put_word d (lba * 512 + i) (w 0))) e here)
  write_words-end lba left P inside last (suc k) s d index w c h =
      let more = data_write-InData s d lba index left (w 0) c (omega arith) (omega arith) in
      subst
        (λ t.
          P (write_words (suc k) t (λ i. w (suc i)))
            (put_words (suc (suc k)) d (lba * 512 + index) w))
        (sym (disk_write-data s (w 0) (AcceptsData-open s d lba index left c)))
        (subst
          (λ off.
            P (write_words (suc k) (data_write s 2 (w 0)) (λ i. w (suc i)))
              (put_words (suc k) (put_word d (lba * 512 + index) (w 0)) off (λ i. w (suc i))))
          (sym (add_assoc (lba * 512) index 2))
          (write_words-end lba left P inside last k (data_write s 2 (w 0))
            (put_word d (lba * 512 + index) (w 0)) (index + 2) (λ i. w (suc i)) more (omega arith)))

  -- Whole sectors.
  pub write_sectors-InData :
      (n : ℕ) (s : State) (d : Array ℕ) (lba : ℕ) (w : Array ℕ)
      → InData s d lba 0 (suc n)
      → lba + suc n ≤ sector_count_of size
      → (lba + suc n) * 512 ≤ size
      → IsOver (write_sectors (suc n) s w) (put_sectors (suc n) d lba w) (lba + suc n)
  unfolding write_sectors put_sectors
  write_sectors-InData zero s d lba w c h inside =
      let end = λ (t : State) (e : Array ℕ) (v : ℕ) (x : InData t e lba 510 1).
        data_write-last t e lba v x (omega (arith, sector_count_of-le size)) (omega arith) in
      let done =
        write_words-end lba 1 (λ t e. IsCompleting t e (lba + 1)) (omega arith) end 255 s d 0 w c
          (omega arith) in
      subst (λ off. IsOver (disk_tick (write_words 256 s w)) (put_words 256 d off w) (lba + 1))
        (add-zero (lba * 512)) (disk_tick-IsCompleting (write_words 256 s w) _ (lba + 1) done)
  write_sectors-InData (suc n) s d lba w c h inside =
      let end = λ (t : State) (e : Array ℕ) (v : ℕ) (x : InData t e lba 510 (suc (suc n))).
        data_write-next t e lba n v x (omega arith) (omega arith) in
      let gap =
        write_words-end lba (suc (suc n)) (λ t e. InGap t e (lba + 1) (suc n)) (omega arith) end 255
          s d 0 w c (omega arith) in
      let opened =
        disk_tick-InGap (write_words 256 s w) (put_words 256 d (lba * 512) w) (lba + 1) (suc n) (
          subst (λ off. InGap (write_words 256 s w) (put_words 256 d off w) (lba + 1) (suc n))
            (add-zero (lba * 512)) gap) in
      subst (IsOver (write_sectors (suc (suc n)) s w) (put_sectors (suc (suc n)) d lba w))
        (add_assoc lba 1 (suc n) ∙ ap (λ k. lba + k) (omega arith))
        (write_sectors-InData n (disk_tick (write_words 256 s w)) (put_words 256 d (lba * 512) w)
          (lba + 1) (λ i. w (256 + i)) opened (omega arith) (omega arith))

  -- The command itself.
  pub disk_write-write :
      (s : State) (d : Array ℕ) (n : ℕ)
      → s.disk.image ≡ some d
      → s.disk.size ≡ size
      → AcceptsCommand s
      → s.disk.selected_lba < sector_count_of size
      → sectors_asked s ≡ n
      → InGap (disk_write s 0x1fc 1 0x30) d s.disk.selected_lba n
  unfolding disk_write taskfile_write command_write start_write lba_in_range sector_count_of
  disk_write-write s d n i z a h e = ground arith
