-- ===== src/Disk/Fetching.antt =====
-- READ DMA: the image's bytes in memory.
use mathlib.Core.Path.{subst}
use nano1g_unicorn_c.Base.{
  ℕ, ◌+◌, ◌*◌, ◌^◌, ◌<◌, ◌≤◌, true, if◌then◌else◌, Array, ◌≡◌, refl, sym, ◌∙◌, ap, arith, some,
  if_false, if_true,
}
use nano1g_unicorn_c.Word.{test_bits}
use nano1g_unicorn_c.State.{State}
use nano1g_unicorn_c.Ram.{Pointer, into_sdram, into_fastram, ram_ptr, ram_read}
use nano1g_unicorn_c.Ram.Copy.{copy_to, ram_read-same, ram_read-copy_to, load_le-byte}
use nano1g_unicorn_c.Disk.Identify.{sector_count_of, lba_in_range}
use nano1g_unicorn_c.Disk.Control.{finish_transfer, set_ide_irq}
use nano1g_unicorn_c.Disk.Dma.{dma_to_memory, advance_dma, complete_dma_transfer}
use nano1g_unicorn_c.Disk.Reading.{AcceptsCommand, sectors_asked-ne-zero, sector_count_of-le}
use nano1g_unicorn_c.Disk.Writing.{IsOver}
use nano1g_unicorn_c.Disk.RoundTrip.{sectors_fit}
use nano1g_unicorn_c.Disk.Registers.{
  open_data_phase, disk_tick, disk_write, taskfile_write, command_write, start_dma, sectors_asked,
}
use nano1g_unicorn_c.Disk.DmaTick.{
  InDma, taken, offset, moved, dma_to_memory-inside, complete_dma-moved, moved-IsOver, same_ptr,
}

disk_write-dma :
    (s : State) (d : Array ℕ) (n : ℕ)
    → s.disk.image ≡ some d
    → AcceptsCommand s
    → s.disk.selected_lba < sector_count_of s.disk.size
    → sectors_asked s ≡ n
    → test_bits s.disk.dma_control 1 ≡ true
    → s.disk.dma_length + 4 ≡ n * 512
    → InDma (disk_write s 0x1fc 1 0xc8) d s.disk.selected_lba n
unfolding disk_write taskfile_write command_write start_dma lba_in_range sector_count_of
disk_write-dma s d n i a h e start length = ground arith

disk_tick-InDma :
    (s : State) (d : Array ℕ) (lba n : ℕ) → InDma s d lba n → disk_tick s ≡ complete_dma_transfer s
unfolding disk_tick
disk_tick-InDma s d lba n c =
    let a = if_false s.disk.nondata_pending _ s c.no_nondata in
    let b =
      ap (λ t. if t.disk.pio_completion_pending then finish_transfer t true else t) a
      ∙ if_false s.disk.pio_completion_pending _ s c.no_completion in
    let e =
      ap (λ t. if t.disk.pio_data_pending then open_data_phase t else t) b
      ∙ if_false s.disk.pio_data_pending _ s c.no_data in
    if_false s.disk.soft_reset_asserted s _ c.no_reset
    ∙ if_false s.disk.soft_reset_pending _ _ c.no_reset_pending
    ∙ ap (λ t. if t.disk.dma_pending then complete_dma_transfer t else t) e
    ∙ if_true s.disk.dma_pending _ s c.pending

dma_to_memory-low0 :
    (s : State) (p : Pointer) (off n : ℕ) → (dma_to_memory s p off n).low0_map ≡ s.low0_map
unfolding dma_to_memory
dma_to_memory-low0 s (into_sdram o) off n = refl
dma_to_memory-low0 s (into_fastram o) off n = refl

copy_to-low0 :
    (s : State) (p : Pointer) (src : Array ℕ) (from n : ℕ)
    → (copy_to s p src from n).low0_map ≡ s.low0_map
copy_to-low0 s (into_sdram o) src from n = refl
copy_to-low0 s (into_fastram o) src from n = refl

-- Memory after the transfer.
moved-read :
    (s : State) (p : Pointer) (n addr : ℕ) (d : Array ℕ)
    → (dma_to_memory (taken s) p (offset s) (n * 512)).ram
      ≡ (copy_to (taken s) p d (offset s) (n * 512)).ram
    → ram_read (finish_transfer (moved s p n) true) addr 1
      ≡ ram_read (copy_to (taken s) p d (offset s) (n * 512)) addr 1
unfolding finish_transfer set_ide_irq moved advance_dma
moved-read s p n addr d e =
    ram_read-same (copy_to (taken s) p d (offset s) (n * 512)) (finish_transfer (moved s p n) true)
      addr 1 e
      (dma_to_memory-low0 (taken s) p (offset s) (n * 512)
        ∙ sym (copy_to-low0 (taken s) p d (offset s) (n * 512)))

fetched :
    (s : State) (d : Array ℕ) (lba n i : ℕ) {p : Pointer}
    → InDma s d lba n
    → ((j : ℕ) → d j < 2 ^ 8)
    → 512 ≤ s.disk.size
    → lba + n ≤ sector_count_of s.disk.size
    → 0 < n
    → n ≤ 256
    → s.disk.dma_addr < 2 ^ 32
    → ram_ptr s s.disk.dma_addr (n * 512) ≡ some p
    → i < n * 512
    → IsOver s.disk.size (disk_tick s) d (lba + n)
      × (ram_read (disk_tick s) (s.disk.dma_addr + i) 1 ≡ some (d (lba * 512 + i)))
fetched s d lba n i {p} c bytes large h pos small addr e lt =
    let done = disk_tick-InDma s d lba n c ∙ complete_dma-moved s d lba n c h pos small e in
    let off : offset s ≡ lba * 512 = omega (arith, c.lba_is, c.index_is) in
    let fits : lba * 512 + n * 512 ≤ s.disk.size =
      omega (arith, sectors_fit s.disk.size (lba + n) large h) in
    let ram =
      dma_to_memory-inside (taken s) d p (offset s) (n * 512) c.image_is (omega (arith, off, fits))
        (omega (arith, pos)) in
    (
      subst (λ t. IsOver s.disk.size t d (lba + n)) (sym done)
          (moved-IsOver s d lba n p c small (omega (arith, h, sector_count_of-le s.disk.size))),
      ap (λ t. ram_read t (s.disk.dma_addr + i) 1) done
          ∙ moved-read s p n (s.disk.dma_addr + i) d ram
          ∙ ram_read-copy_to (taken s) s.disk.dma_addr (n * 512) i (offset s) p d addr
              (omega (arith, small)) lt (same_ptr s (n * 512) ∙ e)
          ∙ ap some
              (load_le-byte d (offset s + i) (bytes (offset s + i)) ∙ ap d (ap (λ o. o + i) off)),
    )

disk_write-keeps :
    (s : State)
    → let t = disk_write s 0x1fc 1 0xc8 in
      (t.disk.size ≡ s.disk.size) × (t.disk.dma_addr ≡ s.disk.dma_addr) × (t.low0_map ≡ s.low0_map)
unfolding disk_write taskfile_write command_write start_dma
disk_write-keeps s = ground arith

ram_ptr-low0 :
    (s t : State) (addr n : ℕ) → t.low0_map ≡ s.low0_map → ram_ptr t addr n ≡ ram_ptr s addr n
unfolding ram_ptr
ram_ptr-low0 s t addr n l = ap (λ m. ram_ptr (record s { low0_map = m }) addr n) l

-- READ DMA to a disk that accepts commands, with the controller started, a length of just the sectors
-- asked for, at most 256 of them, all on a disk image of bytes, and a memory address where they fit:
-- after one tick, each byte of the sectors is read at its place in memory, and the command is over
-- with an interrupt, with the LBA behind the last sector, the image as it was, and the next command
-- accepted.
pub read_dma_lem :
    (s : State) (d : Array ℕ) (i : ℕ) {p : Pointer}
    → s.disk.image ≡ some d
    → ((j : ℕ) → d j < 2 ^ 8)
    → AcceptsCommand s
    → 512 ≤ s.disk.size
    → s.disk.selected_lba + sectors_asked s ≤ sector_count_of s.disk.size
    → sectors_asked s ≤ 256
    → test_bits s.disk.dma_control 1 ≡ true
    → s.disk.dma_length + 4 ≡ sectors_asked s * 512
    → s.disk.dma_addr < 2 ^ 32
    → ram_ptr s s.disk.dma_addr (sectors_asked s * 512) ≡ some p
    → i < sectors_asked s * 512
    → IsOver s.disk.size
        (disk_tick (disk_write s 0x1fc 1 0xc8))
        d
        (s.disk.selected_lba + sectors_asked s)
      × (ram_read (disk_tick (disk_write s 0x1fc 1 0xc8)) (s.disk.dma_addr + i) 1
          ≡ some (d (s.disk.selected_lba * 512 + i)))
read_dma_lem s d i img bytes a large h small start length addr e lt =
    let t = disk_write s 0x1fc 1 0xc8 in
    let n = sectors_asked s in
    let (size, at, low) = disk_write-keeps s in
    let pos : 0 < n = omega (arith, sectors_asked-ne-zero s) in
    let waits = disk_write-dma s d n img a (omega (arith, h, pos)) refl start length in
    let count : s.disk.selected_lba + n ≤ sector_count_of t.disk.size =
      omega (arith, h, ap sector_count_of size) in
    let lands =
      ap (λ x. ram_ptr t x (n * 512)) at ∙ ram_ptr-low0 s t s.disk.dma_addr (n * 512) low ∙ e in
    let (over, there) =
      fetched t d s.disk.selected_lba n i waits bytes (omega (arith, size, large)) count pos small
        (omega (arith, at, addr)) lands lt in
    (
      subst (λ z. IsOver z (disk_tick t) d (s.disk.selected_lba + n)) size over,
      ap (λ x. ram_read (disk_tick t) (x + i) 1) (sym at) ∙ there,
    )
