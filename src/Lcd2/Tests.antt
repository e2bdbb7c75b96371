-- ===== src/Lcd2/Tests.antt =====
-- The display at concrete states.
use nano1g_unicorn_c.Base.{ℕ, ◌≤◌, ◌*◌, ◌+◌, ◌≡◌, refl, arith}
use nano1g_unicorn_c.State.{Lcd2}
use nano1g_unicorn_c.Sample.{idle, blank_lcd2}
use nano1g_unicorn_c.Lcd2.{
  lcd_w, lcd2_push_pixel, lcd2_init_window, draw, next_x, next_y, lcd2_write,
}
use nano1g_unicorn_c.Lcd2.Raster.{HasWindow, Fits, IsAt, push_rows}
use nano1g_unicorn_c.Lcd2.Window.{push_rows-window}
use nano1g_unicorn_c.Lcd2.Bounds.{StaysIn, lcd2_write-StaysIn}

idle-StaysIn : StaysIn idle
idle-StaysIn = record {
  x_in = omega arith;
  y_in = omega arith;
  x_order = omega arith;
  y_order = omega arith;
  cursor_x_in = omega arith;
  cursor_y_in = omega arith;
  placed = refl;
}

lcd2_write-StaysIn_example : StaysIn (lcd2_write idle 0x100 0x12345678)
lcd2_write-StaysIn_example = lcd2_write-StaysIn idle 0x100 0x12345678 idle-StaysIn

pixel_moves : (lcd2_push_pixel idle.lcd2 7).cursor_x ≡ 1
unfolding lcd2_push_pixel draw next_x next_y lcd2_init_window
pixel_moves = refl

-- A window of three rows of four columns.
abbrev small : Lcd2
small = record blank_lcd2 { window_x1 = 3; window_y1 = 2 }

small-HasWindow : HasWindow small 0 0 3 2
small-HasWindow = record { left = refl; top = refl; right = refl; bottom = refl }

small-Fits : Fits 0 0 3 2
small-Fits = (omega arith, omega arith, omega arith, omega arith, omega arith)

push_rows-window_example :
    IsAt (push_rows (λ j i. j * 4 + i) 4 3 small) 0 0
    × ((j i : ℕ)
        → j ≤ 2
        → i ≤ 3
        → (push_rows (λ j i. j * 4 + i) 4 3 small).pixels ((0 + j) * lcd_w + 0 + i) ≡ j * 4 + i)
push_rows-window_example =
    push_rows-window 0 0 3 2 small-Fits (λ j i. j * 4 + i) small small-HasWindow (refl, refl)
