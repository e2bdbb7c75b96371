-- ===== src/Flash/Erase.antt =====
-- The erase command, and the set-up flag that outlives it.
use nano1g_unicorn_c.Base.{
  ℕ, ◌≡◌, ◌≢◌, true, false, arith, ap, ◌∙◌, if◌then◌else◌, leb, ltb, ◌&&◌, ◌+◌,
}
use nano1g_unicorn_c.Word.{u8, clear_bits}
use nano1g_unicorn_c.State.{Flash, mode_status, mode_array}
use nano1g_unicorn_c.Flash.{write_chip, block_size, flash_size, erase_block}
use nano1g_unicorn_c.Flash.Contents.{
  IsValid, contents, contents_after, contents-write_chip, write_chip-IsValid,
}

erase_setup :
    (f : Flash) (at : ℕ)
    → f.program_pending ≡ false
    → f.erase_pending ≡ false
    → let g = write_chip f at 1 0x20 in
      (g.program_pending ≡ false) × (g.erase_pending ≡ true) × (g.mode ≡ mode_array)
unfolding write_chip
erase_setup f at idle idle' = ground arith

setup_keeps :
    (f : Flash) (at j : ℕ)
    → f.program_pending ≡ false
    → f.erase_pending ≡ false
    → contents_after f at 1 0x20 j ≡ contents f j
setup_keeps f at j idle idle' = ground arith

fresh : (f : Flash) → f.erase_pending ≡ false → f.erase_pending ≡ true → f.mode ≡ mode_array
fresh f e h = absurd (ground arith)

module _ (f : Flash) (offset size value : ℕ) (ready : f.program_pending ≡ false)
    (set : f.erase_pending ≡ true) (confirm : u8 value ≡ 0xd0) where
  erase_shows : (write_chip f offset size value).mode ≡ mode_status
  unfolding write_chip
  erase_shows = ground arith

  erase_after :
      (j : ℕ)
      → contents_after f offset size value j ≡ (
          if leb (clear_bits offset 0xffff) j
            && ltb j (clear_bits offset 0xffff + block_size)
            && ltb j flash_size
          then 0xff
          else contents f j)
  unfolding erase_block
  erase_after j = ground arith

-- On a valid, idle chip set-up and confirmation erase the block of the confirming address: every
-- byte of it inside the chip is 0xff, the other contents stay, and the chip shows its status.
erase_cycle :
    (f : Flash) (at offset size value j : ℕ)
    → IsValid f
    → f.program_pending ≡ false
    → f.erase_pending ≡ false
    → u8 value ≡ 0xd0
    → let g = write_chip (write_chip f at 1 0x20) offset size value in
      (g.mode ≡ mode_status)
      × (contents g j ≡ (
          if leb (clear_bits offset 0xffff) j
            && ltb j (clear_bits offset 0xffff + block_size)
            && ltb j flash_size
          then 0xff
          else contents f j))
erase_cycle f at offset size value j v idle idle' confirm =
    let set = write_chip f at 1 0x20 in
    let (ready, pending, array) = erase_setup f at idle idle' in
    let in_block =
      leb (clear_bits offset 0xffff) j
      && ltb j (clear_bits offset 0xffff + block_size)
      && ltb j flash_size in
    (
      erase_shows set offset size value ready pending confirm,
      contents-write_chip set offset size value (write_chip-IsValid f at 1 0x20 v) (λ h. array) j
          ∙ erase_after set offset size value ready pending confirm j
          ∙ ap (λ c. if in_block then 0xff else c)
              (contents-write_chip f at 1 0x20 v (fresh f idle') j ∙ setup_keeps f at j idle idle'),
    )

-- After a confirmed erase the set-up flag still stands, so the next write is lost, whatever it
-- carries but another 0xd0 (read-array included): it only clears the flag, and the chip is left
-- showing its status.
pub erase_swallows_next :
    (f : Flash) (offset size value offset' size' value' : ℕ)
    → f.program_pending ≡ false
    → f.erase_pending ≡ true
    → u8 value ≡ 0xd0
    → u8 value' ≢ 0xd0
    → let g = write_chip f offset size value in
      (write_chip g offset' size' value' ≡ record g { erase_pending = false })
      × (g.mode ≡ mode_status)
unfolding write_chip
erase_swallows_next f offset size value offset' size' value' idle setup confirm other = ground arith
