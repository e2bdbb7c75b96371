-- ===== src/Disk/Moving.antt =====
-- The invariant of the disk is kept by a transfer between the disk and memory.
use nano1g_unicorn_c.Base.{
  ℕ, ◌+◌, ◌*◌, Bool, true, false, not, ◌||◌, ◌≡◌, arith, inl, inr, ◌∙◌, Option-cases,
}
use nano1g_unicorn_c.Word.{test_bits}
use nano1g_unicorn_c.State.{State, Transfer}
use nano1g_unicorn_c.Ram.{Pointer, into_sdram, into_fastram, ram_ptr}
use nano1g_unicorn_c.Disk.Dma.{
  is_dma, move_bytes, dma_failed, bounded_bytes, requested_bytes, dma_to_memory, dma_to_image,
  advance_dma, transfer_bytes, complete_dma_transfer,
}
use nano1g_unicorn_c.Disk.Invariant.{IsValid, if-IsValid, when-IsValid, finish_transfer-IsValid}
use nano1g_unicorn_c.Base.{◌*◌, ◌+◌}

copy_to_memory-IsValid :
    (s : State) (p : Pointer) (off n : ℕ) → IsValid s → IsValid (dma_to_memory s p off n)
unfolding dma_to_memory
copy_to_memory-IsValid s (into_sdram o) off n v = ground arith
copy_to_memory-IsValid s (into_fastram o) off n v = ground arith

copy_to_image-IsValid :
    (s : State) (p : Pointer) (off n : ℕ) → IsValid s → IsValid (dma_to_image s p off n)
unfolding dma_to_image
copy_to_image-IsValid s p off n v = ground arith

advance_dma-IsValid : (s : State) (n : ℕ) → IsValid s → IsValid (advance_dma s n)
unfolding advance_dma
advance_dma-IsValid s n v = ground arith

move_bytes-IsValid :
    (k : Transfer) (s : State) (p : Pointer) (off n : ℕ)
    → IsValid s
    → IsValid (move_bytes k s p off n)
unfolding move_bytes
move_bytes-IsValid k s p off n v =
    ground (arith, copy_to_memory-IsValid s p off n v, copy_to_image-IsValid s p off n v)

without_dma-IsValid :
    (s : State) → IsValid s → IsValid (record s { disk = record s.disk { dma_pending = false } })
without_dma-IsValid s v = ground arith

quiet_reset :
    (s : State)
    → IsValid s
    → is_dma s.disk.transfer_kind ≡ true
    → (s.disk.soft_reset_asserted ≡ false) × (s.disk.soft_reset_pending ≡ false)
quiet_reset s v h = ground arith

dma_failed-IsValid :
    (s : State) (e : ℕ)
    → IsValid s
    → s.disk.soft_reset_asserted ≡ false
    → s.disk.soft_reset_pending ≡ false
    → IsValid (dma_failed s e)
unfolding dma_failed
dma_failed-IsValid s e v a p = ground arith

move_bytes-reset :
    (k : Transfer) (s : State) (p : Pointer) (off n : ℕ)
    → let t = advance_dma (move_bytes k s p off n) n in
      (t.disk.soft_reset_asserted ≡ s.disk.soft_reset_asserted)
      × (t.disk.soft_reset_pending ≡ s.disk.soft_reset_pending)
unfolding move_bytes advance_dma dma_to_memory dma_to_image
move_bytes-reset k s p off n = ground arith

transfer_bytes-IsValid :
    (s : State) (p : Pointer) (n : ℕ) (b : Bool)
    → IsValid s
    → s.disk.soft_reset_asserted ≡ false
    → s.disk.soft_reset_pending ≡ false
    → IsValid (transfer_bytes s p n b)
unfolding transfer_bytes
transfer_bytes-IsValid s p n b v a q =
    let off = s.disk.transfer_lba * 512 + s.disk.data_index in
    let t = advance_dma (move_bytes s.disk.transfer_kind s p off n) n in
    let w =
      advance_dma-IsValid (move_bytes s.disk.transfer_kind s p off n) n
        (move_bytes-IsValid s.disk.transfer_kind s p off n v) in
    let (a', q') = move_bytes-reset s.disk.transfer_kind s p off n in
    if-IsValid _ _ _ (dma_failed-IsValid t _ w (a' ∙ a) (q' ∙ q))
      (if-IsValid _ _ _ (finish_transfer-IsValid t true w (a' ∙ a) (q' ∙ q)) w)

pub complete_dma-IsValid : (s : State) → IsValid s → IsValid (complete_dma_transfer s)
unfolding complete_dma_transfer
complete_dma-IsValid s v =
    let idle = not (test_bits s.disk.dma_control 1) || not (is_dma s.disk.transfer_kind) in
    when-IsValid idle _ _ (λ h. v)
      (λ h.
        let (a, q) = quiet_reset s v (ground arith) in
        let t = record s { disk = record s.disk { dma_pending = false } } in
        let w : IsValid t = without_dma-IsValid s v in
        elim (Option-cases (
          ram_ptr t t.disk.dma_addr (
            bounded_bytes t (t.disk.transfer_lba * 512 + t.disk.data_index) (requested_bytes t)))) [
              | inl e ↦ rw e (dma_failed-IsValid t _ w a q)
              | inr (p, e) ↦ rw e (
                  if-IsValid _ _ _ (dma_failed-IsValid t _ w a q)
                    (transfer_bytes-IsValid t p _ _ w a q))
            ])
