-- ===== src/Dma/Lcd.antt =====
-- The transfers to the display, and the record that the Apple firmware waits for.
use nano1g_unicorn_c.Base.{
  ℕ, zero, suc, ◌+◌, ◌-◌, ◌*◌, ◌/◌, Bool, true, false, not, ◌&&◌, ◌||◌, ltb, leb, ◌==◌,
  if◌then◌else◌, bit_and, bit_or, store, Option, none, some, ◌>>=◌,
}
use nano1g_unicorn_c.Word.{u32, u64, clear_bits, test_bits}
use nano1g_unicorn_c.State.{State}
use nano1g_unicorn_c.Ram.{ram_read, ram_write, ram_ptr, Pointer}
use nano1g_unicorn_c.Lcd2.{lcd2_write, is_apple}
use nano1g_unicorn_c.Dma.Channel.{lcd2_base, slot, ch_reg, dma_irq_sync, set_reg}

-- A write of apple_dma_link_service, unless an earlier one has failed.
abbrev try_write : Bool × State → ℕ → ℕ → ℕ → Bool × State
try_write (fine, s) addr size value =
    if fine
    then elim (ram_write s addr size value) [ none ↦ (false, s) | some t ↦ (true, t) ]
    else (false, s)

abbrev is_mapped : Option Pointer → Bool
is_mapped none = false
is_mapped (some p) = true

-- The record that is put in front of the list of active ones.
unfoldable pub link_record : State → ℕ → Bool × State
link_record s rec = elim (ram_read s 0x1070be1c 4) [
  | none ↦ (false, s)
  | some old_head ↦
      if not (old_head == 0) && not (is_mapped (ram_ptr s old_head 84))
      then (false, s)
      else (let first = try_write (true, s) (u32 (rec + 76)) 4 old_head in
          let second = try_write first (u32 (rec + 80)) 4 0 in
          let third =
            if old_head == 0 then second else try_write second (u32 (old_head + 80)) 4 rec in
          let fourth = try_write third 0x1070be1c 4 rec in try_write fourth (u32 (rec + 84)) 1 1)
]

-- The reads that find the record: its address and whether it is linked.
unfoldable pub find_record : State → ℕ → Option (ℕ × ℕ)
find_record s channel = do
  manager ← ram_read s 0x10705ba0 4
  service ← ram_read s (u32 (manager + 52 + channel * 4)) 4
  vtable ← ram_read s service 4
  rec ← (if vtable == 0x00504cd8 then ram_read s (u32 (service + 188)) 4 else none)
  callback ← (if rec == u32 (service + 16) then ram_read s (u32 (rec + 64)) 4 else none)
  linked ← (if callback == 0 then none else ram_read s (u32 (rec + 84)) 1)
  some (rec, linked)

unfoldable pub apple_dma_link_service : State → ℕ → Bool × State
unfolding find_record link_record
apple_dma_link_service s channel = elim (find_record s channel) [
  | none ↦ (false, s)
  | some (rec, linked) ↦ if linked == 0 then link_record s rec else (true, s)
]

-- The loop over the words of a transfer to the display, up to the first that cannot be read.
unfoldable pub lcd_words_to : ℕ → State → ℕ → ℕ → State
lcd_words_to zero s addr port = s
lcd_words_to (suc n) s addr port = elim (ram_read s addr 4) [
  | none ↦ s
  | some word ↦ lcd_words_to n (lcd2_write s port word) (u32 (addr + 4)) port
]

-- The transfer itself, with the request's own part done.
unfoldable pub lcd_transfer : State → ℕ → State
unfolding lcd_words_to ch_reg dma_irq_sync apple_dma_link_service
lcd_transfer s channel =
    let cmd = ch_reg s.dma channel 0x00 in
    let bytes = bit_and cmd 0xffff + 4 in
    let port = ch_reg s.dma channel 0x18 - lcd2_base in
    let apple_request = is_apple s.opts.profile in
    let (dispatch, linked) =
      if apple_request then apple_dma_link_service s channel else (false, s) in
    let t = lcd_words_to ((bytes + 3) / 4) linked (ch_reg s.dma channel 0x10) port in
    let u = record t {
      dma = record t.dma {
        lcd_transfers = store t.dma.lcd_transfers channel (u64 (t.dma.lcd_transfers channel + 1));
      };
    } in
    let v =
      if apple_request then u else set_reg u (slot channel 0x00) (clear_bits cmd 0x01000000) in
    let w = set_reg v (slot channel 0x04) (bit_or (ch_reg v.dma channel 0x04) 0x04000000) in
    if dispatch
    then dma_irq_sync
        (set_reg w (slot channel 0x04) (bit_or (ch_reg w.dma channel 0x04) 0x40000000))
    else w

-- The Apple firmware's request is served when the display waits for as many pixels.
unfoldable pub apple_lcd_request : State → ℕ → ℕ → State
unfolding lcd_transfer
apple_lcd_request s channel pixels =
    let d = s.dma in
    let mismatch = record d {
      lcd_mismatch_block_start = store d.lcd_mismatch_block_start channel s.lcd2.block_starts;
      lcd_geometry_mismatches = u64 (d.lcd_geometry_mismatches + 1);
    } in
    let accepted = record d {
      lcd_geometry_accepts = u64 (d.lcd_geometry_accepts + 1);
      lcd_descriptor_pixels = u64 (d.lcd_descriptor_pixels + pixels);
      lcd_block_pixels = u64 (d.lcd_block_pixels + s.lcd2.block_pixels_remaining);
      lcd_request_armed = store d.lcd_request_armed channel false;
    } in
    if not (d.lcd_request_armed channel) || (s.lcd2.block_pixels_remaining == 0)
    then s
    else if not (s.lcd2.block_pixels_remaining == pixels)
    then (if d.lcd_mismatch_block_start channel == s.lcd2.block_starts
        then s
        else record s { dma = mismatch })
    else lcd_transfer (record s { dma = accepted }) channel

unfoldable pub dma_try_lcd_transfer : State → ℕ → State
unfolding apple_lcd_request lcd_transfer ch_reg
dma_try_lcd_transfer s channel =
    let cmd = ch_reg s.dma channel 0x00 in
    let per_addr = ch_reg s.dma channel 0x18 in
    let bytes = bit_and cmd 0xffff + 4 in
    if not (test_bits cmd 0x01000000) || ltb per_addr lcd2_base || leb (lcd2_base + 0x200) per_addr
    then s
    else if is_apple s.opts.profile
    then apple_lcd_request s channel (bytes / 2)
    else lcd_transfer s channel
