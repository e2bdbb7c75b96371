-- ===== src/Lcd2.antt =====
-- src/dev_lcd2.c: the display's controller, which fills a window of its memory pixel by pixel. The
-- picture file and the log lines are left out.
pub mod Bounds
pub mod Raster
pub mod Window
mod Tests
use nano1g_unicorn_c.Base.{
  ℕ, zero, suc, ◌+◌, ◌-◌, ◌*◌, ◌/◌, ◌%◌, ◌^◌, Bool, true, false, not, ◌&&◌, ◌||◌, ltb, leb, ◌==◌,
  if◌then◌else◌, bit_and, bit_or, store,
}
use nano1g_unicorn_c.Word.{u8, u16, u64, clear_bits}
use nano1g_unicorn_c.State.{State, Lcd2, Profile, rockbox, apple}

-- N1G_LCD_W, N1G_LCD_H and N1G_LCD_GRAM_H.
abbrev pub lcd_w : ℕ
lcd_w = 176

abbrev pub lcd_h : ℕ
lcd_h = 132

abbrev pub lcd_gram_h : ℕ
lcd_gram_h = 136

-- LCD2_BLOCK_READY | LCD2_BLOCK_TXOK.
abbrev block_ready : ℕ
block_ready = 0x05000000

unfoldable pub lcd2_read : State → ℕ → ℕ
lcd2_read s offset =
    let d = s.lcd2 in
    if (offset == 0x00) || (offset == 0x04)
    then bit_or d.block_ctrl block_ready
    else if offset == 0x0c
    then 0
    else if offset == 0x20
    then bit_or (clear_bits d.block_ctrl 0x40) block_ready
    else if offset == 0x24
    then bit_and d.block_config 0x3fffffff
    else if ltb offset 0x200
    then d.regs (offset / 4)
    else 0

-- A window that was never set is the visible screen.
unfoldable pub lcd2_init_window : Lcd2 → Lcd2
lcd2_init_window d =
    if (d.window_x1 == 0) && (d.window_y1 == 0)
    then record d { window_x0 = 0; window_y0 = 0; window_x1 = lcd_w - 1; window_y1 = lcd_h - 1 }
    else d

unfoldable pub swap16 : ℕ → ℕ
swap16 value = u16 (bit_or (value / 2 ^ 8) (value * 2 ^ 8))

-- The assignments of lcd2_clamp_window, for one axis of `size` pixels.
unfoldable pub clamp_low : ℕ → ℕ → ℕ
clamp_low size v = if leb size v then size - 1 else v

unfoldable pub clamp_high : ℕ → ℕ → ℕ → ℕ
clamp_high size low high =
    if ltb (clamp_low size high) (clamp_low size low)
    then clamp_low size low
    else clamp_low size high

unfoldable pub lcd2_clamp_window : Lcd2 → Lcd2
lcd2_clamp_window d = record d {
  window_x0 = clamp_low lcd_w d.window_x0;
  window_y0 = clamp_low lcd_gram_h d.window_y0;
  window_x1 = clamp_high lcd_w d.window_x0 d.window_x1;
  window_y1 = clamp_high lcd_gram_h d.window_y0 d.window_y1;
}

unfoldable pub lcd2_set_cursor : Lcd2 → ℕ → ℕ → Lcd2
lcd2_set_cursor d x y =
    let cx = clamp_low lcd_w x in
    let cy = clamp_low lcd_gram_h y in
    record d { cursor_x = cx; cursor_y = cy; cursor = cy * lcd_w + cx }

-- The cursor's step of lcd2_push_pixel: to the right, at the window's edge to the next line, at its
-- end to its first line.
unfoldable pub next_x : Lcd2 → ℕ
next_x d =
    let x = u8 (d.cursor_x + 1) in if ltb d.window_x1 x || leb lcd_w x then d.window_x0 else x

unfoldable pub next_y : Lcd2 → ℕ
next_y d =
    let x = u8 (d.cursor_x + 1) in
    let y = u8 (d.cursor_y + 1) in
    if ltb d.window_x1 x || leb lcd_w x
    then (if ltb d.window_y1 y || leb lcd_gram_h y then d.window_y0 else y)
    else d.cursor_y

unfoldable pub draw : Lcd2 → ℕ → Lcd2
draw d pixel = record d {
  pixels =
      if ltb d.cursor_x lcd_w && ltb d.cursor_y lcd_gram_h
      then store d.pixels (d.cursor_y * lcd_w + d.cursor_x) pixel
      else d.pixels;
  cursor_x = next_x d;
  cursor_y = next_y d;
  cursor = next_y d * lcd_w + next_x d;
  dirty = true;
}

unfoldable pub lcd2_push_pixel : Lcd2 → ℕ → Lcd2
lcd2_push_pixel d pixel = draw (lcd2_init_window d) pixel

abbrev pub set_lcd2 : State → Lcd2 → State
set_lcd2 s d = record s { lcd2 = d }

-- lcd2_count_word, over a display that has changed.
unfoldable pub counted : State → Lcd2 → State
counted s d = record s {
  lcd2 = record d { words = u64 (d.words + 1) };
  counters = record s.counters { lcd_words = u64 (s.counters.lcd_words + 1) };
}

unfoldable pub lcd2_handle_command_data : State → ℕ → State
lcd2_handle_command_data s value =
    let d = lcd2_init_window s.lcd2 in
    let low = bit_and value 0xff in
    let high = u8 (value / 2 ^ 8) in
    if d.command == 0x44
    then set_lcd2 s (
        lcd2_clamp_window
          (record d { window_x0 = low; window_x1 = high; window_sets = u64 (d.window_sets + 1) }))
    else if d.command == 0x45
    then set_lcd2 s (
        lcd2_clamp_window
          (record d { window_y0 = low; window_y1 = high; window_sets = u64 (d.window_sets + 1) }))
    else if d.command == 0x21
    then set_lcd2 s (record (lcd2_set_cursor d low high) { cursor_sets = u64 (d.cursor_sets + 1) })
    else if d.command == 0x22
    then counted s
        (record (lcd2_push_pixel d (swap16 value)) { gram_pixels = u64 (d.gram_pixels + 1) })
    else set_lcd2 s d

-- The command stream: a command word, or the two bytes of its data.
unfoldable pub lcd2_write_port : State → ℕ → State
lcd2_write_port s value =
    let d = s.lcd2 in
    let byte = u8 value in
    let both = u16 (bit_or (d.pending_data_hi * 2 ^ 8) byte) in
    if value == 0x80000000
    then set_lcd2 s (record d { pending_command = true; pending_data = false })
    else if bit_and value 0x81000000 == 0x81000000
    then (if d.pending_data
        then lcd2_handle_command_data (set_lcd2 s (record d { pending_data = false })) both
        else set_lcd2 s (record d { pending_data_hi = byte; pending_data = true }))
    else if bit_and value 0x80000000 == 0x80000000
    then set_lcd2 s
        (record d { command = u16 value; pending_command = false; pending_data = false })
    else s

-- The length in bytes, less one, is in the block's configuration.
unfoldable pub lcd2_start_block : Lcd2 → Lcd2
lcd2_start_block e =
    let d = lcd2_init_window e in
    record d {
      block_starts = u64 (d.block_starts + 1);
      last_block_cursor_x = d.cursor_x;
      last_block_cursor_y = d.cursor_y;
      block_ctrl = bit_or (clear_bits d.block_ctrl 0x04000000) 0x01000000;
      block_pixels_remaining = (bit_and d.block_config 0xffff + 1) / 2;
    }

unfoldable pub lcd2_finish_block_if_done : Lcd2 → Lcd2
lcd2_finish_block_if_done d =
    if d.block_pixels_remaining == 0
    then record d { block_ctrl = bit_or d.block_ctrl block_ready }
    else d

-- One pixel of a block, if one is left.
unfoldable pub push_block_pixel : Lcd2 → ℕ → Lcd2
push_block_pixel d pixel =
    if ltb 0 d.block_pixels_remaining
    then record (lcd2_push_pixel d pixel) {
      block_pixels = u64 (d.block_pixels + 1);
      block_pixels_remaining = d.block_pixels_remaining - 1;
    }
    else d

abbrev pub is_apple : Profile → Bool
is_apple apple = true
is_apple rockbox = false

unfoldable pub lcd2_push_block_word : State → ℕ → State
lcd2_push_block_word s value =
    let d = s.lcd2 in
    let first = bit_and value 0xffff in
    let second = u16 (value / 2 ^ 16) in
    if (d.block_pixels_remaining == 0) && is_apple s.opts.profile
    then set_lcd2 s (record d { block_overrun_words = u64 (d.block_overrun_words + 1) })
    else if d.block_pixels_remaining == 0
    then counted s (record (lcd2_push_pixel (lcd2_push_pixel d first) second) {
      block_pixels = u64 (d.block_pixels + 2);
    })
    else (let t = counted s (push_block_pixel (push_block_pixel d first) second) in
        set_lcd2 t (lcd2_finish_block_if_done t.lcd2))

unfoldable pub lcd2_write : State → ℕ → ℕ → State
lcd2_write s offset value =
    let t = set_lcd2 s (record s.lcd2 {
      regs = if ltb offset 0x200 then store s.lcd2.regs (offset / 4) value else s.lcd2.regs;
    }) in
    let controlled = record t.lcd2 { block_ctrl = value } in
    if (offset == 0x00) || (offset == 0x0c)
    then lcd2_write_port t value
    else if offset == 0x04
    then set_lcd2 t controlled
    else if offset == 0x20
    then set_lcd2 t
        (if bit_and value 0x30000000 == 0x30000000 then lcd2_start_block controlled else controlled)
    else if offset == 0x24
    then set_lcd2 t (record t.lcd2 { block_config = value })
    else if offset == 0x100
    then lcd2_push_block_word t value
    else t
