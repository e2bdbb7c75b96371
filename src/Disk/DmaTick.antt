-- ===== src/Disk/DmaTick.antt =====
-- The tick that moves the sectors of a READ DMA command.
use nano1g_unicorn_c.Base.{
  ℕ, ◌+◌, ◌-◌, ◌*◌, ◌^◌, ◌<◌, ◌≤◌, true, false, not, ◌||◌, ◌==◌, ltb, if◌then◌else◌, Array,
  copy_bytes, ◌≡◌, refl, ◌∙◌, ap, ap₂, fun_ext, arith, Option, some, none, if_false, if_true,
}
use nano1g_unicorn_c.Word.{test_bits}
use nano1g_unicorn_c.State.{State, Ram, transfer_dma_read}
use nano1g_unicorn_c.Ram.{Pointer, into_sdram, into_fastram, ram_ptr}
use nano1g_unicorn_c.Ram.Copy.{copy_to}
use nano1g_unicorn_c.Disk.Identify.{sector_count_of, disk_sector_count}
use nano1g_unicorn_c.Disk.Control.{finish_transfer, error_id_not_found, error_abort}
use nano1g_unicorn_c.Disk.Dma.{
  is_dma, dma_failed, image_of, image_bytes, fill_bytes, dma_to_memory, advance_dma,
  requested_bytes, bounded_bytes, move_bytes, transfer_bytes, complete_dma_transfer,
}
use nano1g_unicorn_c.Disk.Writing.{IsOver}

fill_none : (m : Array ℕ) (to v : ℕ) → fill_bytes m to v 0 ≡ m
fill_none m to v = fun_ext (λ j. ground arith)

filled :
    (m src : Array ℕ) (to from v : ℕ) {c n : ℕ}
    → c ≡ n
    → fill_bytes (copy_bytes m to src from c) (to + c) v (n - c) ≡ copy_bytes m to src from n
filled m src to from v {c} {n} e =
    let none : n - c ≡ 0 = omega arith in
    ap (fill_bytes (copy_bytes m to src from c) (to + c) v) none
    ∙ fill_none (copy_bytes m to src from c) (to + c) v
    ∙ ap (copy_bytes m to src from) e

image_bytes-inside :
    (s : State) (d : Array ℕ) (off n : ℕ)
    → s.disk.image ≡ some d
    → off + n ≤ s.disk.size
    → 0 < n
    → image_bytes s off n ≡ n
unfolding image_bytes
image_bytes-inside s d off n i h pos = rw i (ground arith)

-- The whole of what is asked for stands in the image.
pub dma_to_memory-inside :
    (s : State) (d : Array ℕ) (p : Pointer) (off n : ℕ)
    → s.disk.image ≡ some d
    → off + n ≤ s.disk.size
    → 0 < n
    → (dma_to_memory s p off n).ram ≡ (copy_to s p d off n).ram
unfolding dma_to_memory
dma_to_memory-inside s d (into_sdram o) off n i h pos =
    ap {A = Array ℕ} {B = Ram} (λ m. record s.ram { sdram = m })
      (filled s.ram.sdram (image_of s.disk.image) o off 0xff (image_bytes-inside s d off n i h pos)
        ∙ ap (λ x. copy_bytes s.ram.sdram o (image_of x) off n) i)
dma_to_memory-inside s d (into_fastram o) off n i h pos =
    ap {A = Array ℕ} {B = Ram} (λ m. record s.ram { fastram = m })
      (filled s.ram.fastram (image_of s.disk.image) o off 0xff
          (image_bytes-inside s d off n i h pos)
        ∙ ap (λ x. copy_bytes s.ram.fastram o (image_of x) off n) i)

-- The command waits for its tick: `n` sectors from `lba` on, to the address of `p`.
pub record InDma (s : State) (d : Array ℕ) (lba n : ℕ) : Type 0 where
  pub image_is : s.disk.image ≡ some d
  pub kind_is : s.disk.transfer_kind ≡ transfer_dma_read
  pub error_is : s.disk.error ≡ 0
  pub lba_is : s.disk.transfer_lba ≡ lba
  pub index_is : s.disk.data_index ≡ 0
  pub left_is : s.disk.sectors_remaining ≡ n
  pub starts : test_bits s.disk.dma_control 1 ≡ true
  pub length_is : s.disk.dma_length + 4 ≡ n * 512
  pub pending : s.disk.dma_pending ≡ true
  pub no_data : s.disk.pio_data_pending ≡ false
  pub no_completion : s.disk.pio_completion_pending ≡ false
  pub no_nondata : s.disk.nondata_pending ≡ false
  pub no_reset : s.disk.soft_reset_asserted ≡ false
  pub no_reset_pending : s.disk.soft_reset_pending ≡ false

abbrev pub taken : State → State
taken s = record s { disk = record s.disk { dma_pending = false } }

abbrev pub offset : State → ℕ
offset s = s.disk.transfer_lba * 512 + s.disk.data_index

requested :
    (s : State) (d : Array ℕ) (lba n : ℕ)
    → InDma s d lba n
    → n ≤ 256
    → requested_bytes (taken s) ≡ n * 512
unfolding requested_bytes
requested s d lba n c small = ground (arith, c.left_is, c.index_is, c.length_is)

bounded :
    (s : State) (off n lba : ℕ)
    → off ≡ lba * 512
    → lba + n ≤ sector_count_of s.disk.size
    → 0 < n
    → bounded_bytes (taken s) off (n * 512) ≡ n * 512
unfolding bounded_bytes disk_sector_count
bounded s off n lba e h pos = ground arith

pub same_ptr :
    (s : State) (b : ℕ) → ram_ptr (taken s) s.disk.dma_addr b ≡ ram_ptr s s.disk.dma_addr b
unfolding ram_ptr
same_ptr s b = refl

-- The transfer, once its size and its pointer are known.
abbrev dma_step : State → ℕ → ℕ → Option Pointer → State
dma_step t requested bytes o =
    let failing = dma_failed t (if bytes == 0 then error_id_not_found else error_abort) in
    elim o [
      | none ↦ failing
      | some p ↦ if bytes == 0 then failing else transfer_bytes t p bytes (ltb bytes requested)
    ]

dma_step-whole :
    (t : State) (p : Pointer) (n : ℕ) → 0 < n → dma_step t n n (some p) ≡ transfer_bytes t p n false
dma_step-whole t p n pos =
    let more : (n == 0) ≡ false = ground arith in
    let whole : ltb n n ≡ false = ground arith in rw (more, whole) refl

complete_dma-step :
    (s : State) (d : Array ℕ) (lba n : ℕ)
    → InDma s d lba n
    → complete_dma_transfer s ≡ (
        let t = taken s in
        let r = requested_bytes t in
        dma_step t r
          (bounded_bytes t (offset s) r)
          (ram_ptr t s.disk.dma_addr (bounded_bytes t (offset s) r)))
unfolding complete_dma_transfer
complete_dma-step s d lba n c =
    if_false (not (test_bits s.disk.dma_control 1) || not (is_dma s.disk.transfer_kind)) s _
      (ap₂ (λ a k. not a || not (is_dma k)) c.starts c.kind_is)

unfoldable pub moved : State → Pointer → ℕ → State
moved s p n = advance_dma (dma_to_memory (taken s) p (offset s) (n * 512)) (n * 512)

dma_to_memory-disk : (s : State) (p : Pointer) (off n : ℕ) → (dma_to_memory s p off n).disk ≡ s.disk
unfolding dma_to_memory
dma_to_memory-disk s (into_sdram o) off n = refl
dma_to_memory-disk s (into_fastram o) off n = refl

moved-left :
    (s : State) (d : Array ℕ) (lba n : ℕ) (p : Pointer)
    → InDma s d lba n
    → n ≤ 256
    → (moved s p n).disk.sectors_remaining ≡ 0
unfolding moved advance_dma
moved-left s d lba n p c small =
    rw (dma_to_memory-disk (taken s) p (offset s) (n * 512)) (ground (arith, c.left_is, c.index_is))

whole_transfer :
    (s : State) (d : Array ℕ) (lba n : ℕ) (p : Pointer)
    → InDma s d lba n
    → n ≤ 256
    → transfer_bytes (taken s) p (n * 512) false ≡ finish_transfer (moved s p n) true
unfolding transfer_bytes move_bytes moved
whole_transfer s d lba n p c small =
    let body =
      λ (x : State). (if x.disk.sectors_remaining == 0 then finish_transfer x true else x) in
    ap (λ k. body (advance_dma (move_bytes k (taken s) p (offset s) (n * 512)) (n * 512))) c.kind_is
    ∙ if_true ((moved s p n).disk.sectors_remaining == 0) (finish_transfer (moved s p n) true)
        (moved s p n) (ap (λ r. r == 0) (moved-left s d lba n p c small))

pub complete_dma-moved :
    (s : State) (d : Array ℕ) (lba n : ℕ) {p : Pointer}
    → InDma s d lba n
    → lba + n ≤ sector_count_of s.disk.size
    → 0 < n
    → n ≤ 256
    → ram_ptr s s.disk.dma_addr (n * 512) ≡ some p
    → complete_dma_transfer s ≡ finish_transfer (moved s p n) true
complete_dma-moved s d lba n {p} c h pos small e =
    let t = taken s in
    let off : offset s ≡ lba * 512 = omega (arith, c.lba_is, c.index_is) in
    let ptr = λ (b : ℕ). ram_ptr t s.disk.dma_addr b in
    complete_dma-step s d lba n c
    ∙ ap (λ r. dma_step t r (bounded_bytes t (offset s) r) (ptr (bounded_bytes t (offset s) r)))
        (requested s d lba n c small)
    ∙ ap (λ b. dma_step t (n * 512) b (ptr b)) (bounded s (offset s) n lba off h pos)
    ∙ ap (dma_step t (n * 512) (n * 512)) (same_ptr s (n * 512) ∙ e)
    ∙ dma_step-whole t p (n * 512) (omega (arith, pos))
    ∙ whole_transfer s d lba n p c small

pub moved-IsOver :
    (s : State) (d : Array ℕ) (lba n : ℕ) (p : Pointer)
    → InDma s d lba n
    → n ≤ 256
    → lba + n < 2 ^ 32
    → IsOver s.disk.size (finish_transfer (moved s p n) true) d (lba + n)
unfolding finish_transfer moved advance_dma
moved-IsOver s d lba n p c small h =
    let same = dma_to_memory-disk (taken s) p (offset s) (n * 512) in
    record {
      image_is = ap (λ x. x.image) same ∙ c.image_is;
      size_is = ap (λ x. x.size) same;
      shown = refl;
      error_is = ap (λ x. x.error) same ∙ c.error_is;
      kind_is = refl;
      lba_is = rw same (omega (arith, c.lba_is, c.index_is, small, h));
      irq = refl;
      accepts = record {
        no_dma = ap (λ x. x.dma_pending) same;
        no_reset = ap (λ x. x.soft_reset_asserted) same ∙ c.no_reset;
        no_reset_pending = ap (λ x. x.soft_reset_pending) same ∙ c.no_reset_pending;
      };
    }
