-- ===== src/Disk/Reading.antt =====
-- READ SECTORS: the words that the guest reads are those of the image, in order.
use mathlib.Core.Path.{subst}
use native.Mathlib.Nat.{add_assoc, add-zero}
use nano1g_unicorn_c.Base.{
  ℕ, zero, suc, ◌+◌, ◌-◌, ◌*◌, ◌^◌, ◌<◌, ◌≤◌, true, false, Option, Array, ◌≡◌, refl, sym, ◌∙◌, ap,
  arith, [], ◌∷◌, ◌++◌, ap₂,
}
use nano1g_unicorn_c.State.{State, transfer_read, transfer_none}
use nano1g_unicorn_c.Disk.Identify.{sector_count_of, lba_in_range}
use nano1g_unicorn_c.Disk.Control.{data_ready, ata_bsy, ready, finish_transfer, schedule_pio_data}
use nano1g_unicorn_c.Disk.Pio.{image_word, disk_word, read_sector_word, data_read}
use nano1g_unicorn_c.Disk.Guest.{read_words, read_sectors, image_words, image_sectors}
use nano1g_unicorn_c.Disk.Registers.{
  disk_tick, disk_read, disk_write, taskfile_write, command_write, start_read, sectors_asked,
}

-- The disk takes a command: it is not in reset, and no transfer to memory waits for a tick.
pub record AcceptsCommand (s : State) : Type 0 where
  pub no_dma : s.disk.dma_pending ≡ false
  pub no_reset : s.disk.soft_reset_asserted ≡ false
  pub no_reset_pending : s.disk.soft_reset_pending ≡ false

pub sectors_asked-ne-zero : (s : State) → ¬ (sectors_asked s ≡ 0)
sectors_asked-ne-zero s e = ground arith

pub sector_count_of-le : (size : ℕ) → sector_count_of size ≤ 0x0fffffff
unfolding sector_count_of
sector_count_of-le size = ground arith

module _ (img : Option (Array ℕ)) (size : ℕ) where
  -- No step but the transfer's own is in waiting.
  pub record IsCalm (s : State) : Type 0 where
    pub image_is : s.disk.image ≡ img
    pub size_is : s.disk.size ≡ size
    pub kind_is : s.disk.transfer_kind ≡ transfer_read
    pub error_is : s.disk.error ≡ 0
    pub no_nondata : s.disk.nondata_pending ≡ false
    pub no_completion : s.disk.pio_completion_pending ≡ false
    pub no_dma : s.disk.dma_pending ≡ false
    pub no_reset : s.disk.soft_reset_asserted ≡ false
    pub no_reset_pending : s.disk.soft_reset_pending ≡ false

  -- The data phase of a read: `left` sectors to go, at byte `index` of sector `lba`.
  pub record InData (s : State) (lba index left : ℕ) : Type 0 where
    pub calm : IsCalm s
    pub shown : s.disk.status ≡ data_ready
    pub lba_is : s.disk.transfer_lba ≡ lba
    pub index_is : s.disk.data_index ≡ index
    pub left_is : s.disk.sectors_remaining ≡ left
    pub nothing_pending : s.disk.pio_data_pending ≡ false

  -- Between two sectors: busy until the next tick.
  pub record InGap (s : State) (lba left : ℕ) : Type 0 where
    pub calm : IsCalm s
    pub busy : s.disk.status ≡ ata_bsy
    pub lba_is : s.disk.transfer_lba ≡ lba
    pub index_is : s.disk.data_index ≡ 0
    pub left_is : s.disk.sectors_remaining ≡ left
    pub pending : s.disk.pio_data_pending ≡ true

  disk_word-InData :
      (s : State) (lba index left : ℕ)
      → InData s lba index left
      → index + 2 < 512
      → ((disk_word s).0 ≡ image_word img size (lba * 512 + index))
        × InData (disk_word s).1 lba (index + 2) left
  unfolding disk_word read_sector_word
  disk_word-InData s lba index left v h = ground arith

  disk_tick-InGap : (s : State) (lba left : ℕ) → InGap s lba left → InData (disk_tick s) lba 0 left
  unfolding disk_tick
  disk_tick-InGap s lba left v = ground arith

  -- The command is over.
  pub record IsDone (s : State) (lba : ℕ) : Type 0 where
    pub image_is : s.disk.image ≡ img
    pub shown : s.disk.status ≡ ready
    pub error_is : s.disk.error ≡ 0
    pub kind_is : s.disk.transfer_kind ≡ transfer_none
    pub lba_is : s.disk.selected_lba ≡ lba
    pub no_data : s.disk.pio_data_pending ≡ false
    pub no_nondata : s.disk.nondata_pending ≡ false
    pub no_completion : s.disk.pio_completion_pending ≡ false
    pub no_dma : s.disk.dma_pending ≡ false
    pub no_reset : s.disk.soft_reset_asserted ≡ false
    pub no_reset_pending : s.disk.soft_reset_pending ≡ false

  -- The last word of a sector, with more sectors to come that the disk has.
  disk_word-next :
      (s : State) (lba left : ℕ)
      → InData s lba 510 (suc (suc left))
      → lba + 1 < sector_count_of size
      → ((disk_word s).0 ≡ image_word img size (lba * 512 + 510))
        × InGap (disk_word s).1 (lba + 1) (suc left)
  unfolding disk_word read_sector_word sector_count_of lba_in_range schedule_pio_data
  disk_word-next s lba left v h = ground arith

  -- The last word of the last sector.
  disk_word-last :
      (s : State) (lba : ℕ)
      → InData s lba 510 1
      → lba < 2 ^ 32 - 1
      → ((disk_word s).0 ≡ image_word img size (lba * 512 + 510)) × IsDone (disk_word s).1 (lba + 1)
  unfolding disk_word read_sector_word finish_transfer
  disk_word-last s lba v h = ground arith

  disk_tick-IsDone : (s : State) (lba : ℕ) → IsDone s lba → disk_tick s ≡ s
  unfolding disk_tick
  disk_tick-IsDone s lba v = ground arith

  disk_read-data : (s : State) → disk_read s 0x1e0 2 ≡ disk_word s
  unfolding disk_read data_read
  disk_read-data s = refl

  -- The words up to the end of a sector, whatever holds after the last one.
  read_words-end :
      (lba left : ℕ) (P : State → Type 0)
      → ((s : State)
          → InData s lba 510 left
          → ((disk_word s).0 ≡ image_word img size (lba * 512 + 510)) × P (disk_word s).1)
      → (k : ℕ) (s : State) (index : ℕ) → InData s lba index left
      → index + 2 * suc k ≡ 512
      → ((read_words (suc k) s).0 ≡ image_words img size (lba * 512 + index) (suc k))
        × P (read_words (suc k) s).1
  unfolding read_words image_words disk_read data_read
  read_words-end lba left P last zero s index v h =
      let e : 510 ≡ index = omega arith in
      let (word, after) = last s (subst (λ i. InData s lba i left) (sym e) v) in
      (ap (λ w. w ∷ []) (word ∙ ap (λ i. image_word img size (lba * 512 + i)) e), after)
  read_words-end lba left P last (suc k) s index v h =
      let (word, inside) = disk_word-InData s lba index left v (omega arith) in
      let (words, after) =
        read_words-end lba left P last k (disk_word s).1 (index + 2) inside (omega arith) in
      (
        ap₂ ◌∷◌ word (
            words
            ∙ ap (λ off. image_words img size off (suc k)) (sym (add_assoc (lba * 512) index 2))),
        after,
      )

  -- A whole sector, with more to come, and the last one.
  sector_next :
      (s : State) (lba left : ℕ)
      → InData s lba 0 (suc (suc left))
      → lba + 1 < sector_count_of size
      → ((read_words 256 s).0 ≡ image_words img size (lba * 512) 256)
        × InGap (read_words 256 s).1 (lba + 1) (suc left)
  sector_next s lba left v h =
      let end =
        λ (t : State) (w : InData t lba 510 (suc (suc left))). disk_word-next t lba left w h in
      let (words, after) =
        read_words-end lba (suc (suc left)) (λ t. InGap t (lba + 1) (suc left)) end 255 s 0 v
          (omega arith) in
      (words ∙ ap (λ off. image_words img size off 256) (add-zero (lba * 512)), after)

  sector_last :
      (s : State) (lba : ℕ)
      → InData s lba 0 1
      → lba < 2 ^ 32 - 1
      → ((read_words 256 s).0 ≡ image_words img size (lba * 512) 256)
        × IsDone (read_words 256 s).1 (lba + 1)
  sector_last s lba v h =
      let end = λ (t : State) (w : InData t lba 510 1). disk_word-last t lba w h in
      let (words, after) =
        read_words-end lba 1 (λ t. IsDone t (lba + 1)) end 255 s 0 v (omega arith) in
      (words ∙ ap (λ off. image_words img size off 256) (add-zero (lba * 512)), after)

  read_sectors-InData :
      (n : ℕ) (s : State) (lba : ℕ)
      → InData s lba 0 (suc n)
      → lba + suc n ≤ sector_count_of size
      → ((read_sectors (suc n) s).0 ≡ image_sectors img size lba (suc n))
        × IsDone (read_sectors (suc n) s).1 (lba + suc n)
  unfolding read_sectors image_sectors
  read_sectors-InData zero s lba v h =
      let (words, done) = sector_last s lba v (omega (arith, sector_count_of-le size)) in
      (
        ap (λ ws. ws ++ []) words,
        subst (λ t. IsDone t (lba + 1)) (sym (disk_tick-IsDone _ _ done)) done,
      )
  read_sectors-InData (suc n) s lba v h =
      let (words, gap) = sector_next s lba n v (omega arith) in
      let next = disk_tick (read_words 256 s).1 in
      let (rest, done) =
        read_sectors-InData n next (lba + 1)
          (disk_tick-InGap (read_words 256 s).1 (lba + 1) (suc n) gap) (omega arith) in
      (
        ap₂ ◌++◌ words rest,
        subst (IsDone (read_sectors (suc n) next).1)
            (add_assoc lba 1 (suc n) ∙ ap (λ k. lba + k) (omega arith)) done,
      )

  -- The command itself.
  disk_write-read :
      (s : State) (n : ℕ)
      → s.disk.image ≡ img
      → s.disk.size ≡ size
      → AcceptsCommand s
      → s.disk.selected_lba < sector_count_of size
      → sectors_asked s ≡ n
      → InGap (disk_write s 0x1fc 1 0x20) s.disk.selected_lba n
  unfolding disk_write taskfile_write command_write start_read lba_in_range sector_count_of
  disk_write-read s n i z a h e = ground arith

-- READ SECTORS to a disk that accepts commands, where all the sectors asked for from the selected
-- LBA on are on the disk: the guest, with a tick before each sector, reads exactly the words of those
-- sectors of the image, in order, and at the end the command is over, with the LBA behind the last
-- sector and the image as it was.
pub read_sectors_lem :
    (s : State)
    → AcceptsCommand s
    → s.disk.selected_lba + sectors_asked s ≤ sector_count_of s.disk.size
    → let (words, t) = read_sectors (sectors_asked s) (disk_tick (disk_write s 0x1fc 1 0x20)) in
      (words ≡ image_sectors s.disk.image s.disk.size s.disk.selected_lba (sectors_asked s))
      × IsDone s.disk.image s.disk.size t (s.disk.selected_lba + sectors_asked s)
read_sectors_lem s a h = go (sectors_asked s) refl h
  where
    go :
        (n : ℕ)
        → sectors_asked s ≡ n
        → s.disk.selected_lba + n ≤ sector_count_of s.disk.size
        → let (words, t) = read_sectors n (disk_tick (disk_write s 0x1fc 1 0x20)) in
          (words ≡ image_sectors s.disk.image s.disk.size s.disk.selected_lba n)
          × IsDone s.disk.image s.disk.size t (s.disk.selected_lba + n)
    go zero e k = absurd (sectors_asked-ne-zero s e)
    go (suc n) e k =
        let command = disk_write s 0x1fc 1 0x20 in
        let gap = disk_write-read s.disk.image s.disk.size s (suc n) refl refl a (omega arith) e in
        read_sectors-InData s.disk.image s.disk.size n (disk_tick command) s.disk.selected_lba
          (disk_tick-InGap s.disk.image s.disk.size command s.disk.selected_lba (suc n) gap) k
