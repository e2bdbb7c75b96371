-- ===== src/Lcd2/Bounds.antt =====
-- The display's window and cursor stay within its memory.
use nano1g_unicorn_c.Base.{
  ℕ, ◌+◌, ◌*◌, ◌/◌, ◌^◌, ◌≤◌, ◌<◌, ◌≡◌, Bool, true, false, ◌&&◌, ◌||◌, ltb, ◌==◌, if◌then◌else◌,
  arith, bit_and, bit_or, Bool-cases, inl, inr, refl, store,
}
use nano1g_unicorn_c.Word.{u8, u16}
use nano1g_unicorn_c.State.{State, Lcd2}
use nano1g_unicorn_c.Lcd2.{
  lcd_w, lcd_gram_h, lcd2_init_window, clamp_low, clamp_high, lcd2_clamp_window, lcd2_set_cursor,
  next_x, next_y, draw, lcd2_push_pixel, lcd2_handle_command_data, lcd2_write_port,
  lcd2_start_block, lcd2_finish_block_if_done, push_block_pixel, lcd2_push_block_word, lcd2_write,
  counted, swap16, is_apple,
}

-- The window lies in the memory, so does the cursor, and `place` is the cursor's place there.
pub record Bounds (x0 y0 x1 y1 cx cy place : ℕ) : Type 0 where
  pub x_in : x1 < lcd_w
  pub y_in : y1 < lcd_gram_h
  pub x_order : x0 ≤ x1
  pub y_order : y0 ≤ y1
  pub cursor_x_in : cx < lcd_w
  pub cursor_y_in : cy < lcd_gram_h
  pub placed : place ≡ cy * lcd_w + cx

abbrev pub IsInBounds : Lcd2 → Type 0
IsInBounds d = Bounds d.window_x0 d.window_y0 d.window_x1 d.window_y1 d.cursor_x d.cursor_y d.cursor

init-IsInBounds : (d : Lcd2) → IsInBounds d → IsInBounds (lcd2_init_window d)
unfolding lcd2_init_window
init-IsInBounds d v = elim (Bool-cases ((d.window_x1 == 0) && (d.window_y1 == 0))) [
  | inl h ↦ rw h (record {
    x_in = omega arith;
    y_in = omega arith;
    x_order = omega arith;
    y_order = omega arith;
    cursor_x_in = v.cursor_x_in;
    cursor_y_in = v.cursor_y_in;
    placed = v.placed;
  })
  | inr h ↦ rw h v
]

clamp_high-lt : (size low high : ℕ) → 0 < size → clamp_high size low high < size
unfolding clamp_high clamp_low
clamp_high-lt size low high h = ground arith

clamp_low-le : (size low high : ℕ) → clamp_low size low ≤ clamp_high size low high
unfolding clamp_high
clamp_low-le size low high = ground arith

clamp_low-lt : (size v : ℕ) → 0 < size → clamp_low size v < size
unfolding clamp_low
clamp_low-lt size v h = ground arith

next_x-lt : (d : Lcd2) → IsInBounds d → next_x d < lcd_w
unfolding next_x
next_x-lt d v = ground (arith, v.x_in, v.x_order)

next_y-lt : (d : Lcd2) → IsInBounds d → next_y d < lcd_gram_h
unfolding next_y
next_y-lt d v = ground (arith, v.y_in, v.y_order, v.cursor_y_in)

next_x-ge : (d : Lcd2) → IsInBounds d → d.window_x0 ≤ d.cursor_x → d.window_x0 ≤ next_x d
unfolding next_x
next_x-ge d v h = ground (arith, v.cursor_x_in)

draw-IsInBounds : (d : Lcd2) (pixel : ℕ) → IsInBounds d → IsInBounds (draw d pixel)
unfolding draw
draw-IsInBounds d pixel v = record {
  x_in = v.x_in;
  y_in = v.y_in;
  x_order = v.x_order;
  y_order = v.y_order;
  cursor_x_in = next_x-lt d v;
  cursor_y_in = next_y-lt d v;
  placed = refl;
}

pub push-IsInBounds : (d : Lcd2) (pixel : ℕ) → IsInBounds d → IsInBounds (lcd2_push_pixel d pixel)
unfolding lcd2_push_pixel
push-IsInBounds d pixel v = draw-IsInBounds (lcd2_init_window d) pixel (init-IsInBounds d v)

-- What a window that was set becomes, for any corners.
clamp-Bounds :
    (x0 y0 x1 y1 cx cy place : ℕ)
    → cx < lcd_w
    → cy < lcd_gram_h
    → place ≡ cy * lcd_w + cx
    → Bounds
        (clamp_low lcd_w x0)
        (clamp_low lcd_gram_h y0)
        (clamp_high lcd_w x0 x1)
        (clamp_high lcd_gram_h y0 y1)
        cx
        cy
        place
clamp-Bounds x0 y0 x1 y1 cx cy place x y p = record {
  x_in = clamp_high-lt lcd_w x0 x1 (omega arith);
  y_in = clamp_high-lt lcd_gram_h y0 y1 (omega arith);
  x_order = clamp_low-le lcd_w x0 x1;
  y_order = clamp_low-le lcd_gram_h y0 y1;
  cursor_x_in = x;
  cursor_y_in = y;
  placed = p;
}

set_cursor-IsInBounds : (d : Lcd2) (x y : ℕ) → IsInBounds d → IsInBounds (lcd2_set_cursor d x y)
unfolding lcd2_set_cursor
set_cursor-IsInBounds d x y v = record {
  x_in = v.x_in;
  y_in = v.y_in;
  x_order = v.x_order;
  y_order = v.y_order;
  cursor_x_in = clamp_low-lt lcd_w x (omega arith);
  cursor_y_in = clamp_low-lt lcd_gram_h y (omega arith);
  placed = refl;
}

push_block_pixel-IsInBounds :
    (d : Lcd2) (pixel : ℕ) → IsInBounds d → IsInBounds (push_block_pixel d pixel)
unfolding push_block_pixel
push_block_pixel-IsInBounds d pixel v = elim (Bool-cases (ltb 0 d.block_pixels_remaining)) [
  | inl h ↦ rw h (push-IsInBounds d pixel v)
  | inr h ↦ rw h v
]

finish-IsInBounds : (d : Lcd2) → IsInBounds d → IsInBounds (lcd2_finish_block_if_done d)
unfolding lcd2_finish_block_if_done
finish-IsInBounds d v = elim (Bool-cases (d.block_pixels_remaining == 0)) [
  | inl h ↦ rw h v
  | inr h ↦ rw h v
]

start_block-IsInBounds : (d : Lcd2) → IsInBounds d → IsInBounds (lcd2_start_block d)
unfolding lcd2_start_block
start_block-IsInBounds d v = init-IsInBounds d v

abbrev pub StaysIn : State → Type 0
StaysIn s = IsInBounds s.lcd2

if-StaysIn : (b : Bool) (s t : State) → StaysIn s → StaysIn t → StaysIn (if b then s else t)
if-StaysIn true s t v w = v
if-StaysIn false s t v w = w

data-StaysIn : (s : State) (value : ℕ) → StaysIn s → StaysIn (lcd2_handle_command_data s value)
unfolding lcd2_handle_command_data lcd2_clamp_window counted
data-StaysIn s value w =
    let d = lcd2_init_window s.lcd2 in
    let v = init-IsInBounds s.lcd2 w in
    let low = bit_and value 0xff in
    let high = u8 (value / 2 ^ 8) in
    elim (Bool-cases (d.command == 0x44)) [
      | inl h ↦ rw h (
          clamp-Bounds low d.window_y0 high d.window_y1 d.cursor_x d.cursor_y d.cursor v.cursor_x_in
            v.cursor_y_in v.placed)
      | inr h ↦ rw h (elim (Bool-cases (d.command == 0x45)) [
        | inl k ↦ rw k (
            clamp-Bounds d.window_x0 low d.window_x1 high d.cursor_x d.cursor_y d.cursor
              v.cursor_x_in v.cursor_y_in v.placed)
        | inr k ↦ rw k (elim (Bool-cases (d.command == 0x21)) [
          | inl l ↦ rw l (set_cursor-IsInBounds d low high v)
          | inr l ↦ rw l (elim (Bool-cases (d.command == 0x22)) [
            | inl m ↦ rw m (push-IsInBounds d (swap16 value) v)
            | inr m ↦ rw m v
          ])
        ])
      ])
    ]

port-StaysIn : (s : State) (value : ℕ) → StaysIn s → StaysIn (lcd2_write_port s value)
unfolding lcd2_write_port
port-StaysIn s value v = elim (Bool-cases (value == 0x80000000)) [
  | inl h ↦ rw h v
  | inr h ↦ rw h (elim (Bool-cases (bit_and value 0x81000000 == 0x81000000)) [
    | inl k ↦ rw k (elim (Bool-cases s.lcd2.pending_data) [
      | inl l ↦ rw l (
          data-StaysIn (record s { lcd2 = record s.lcd2 { pending_data = false } })
            (u16 (bit_or (s.lcd2.pending_data_hi * 2 ^ 8) (u8 value))) v)
      | inr l ↦ rw l v
    ])
    | inr k ↦ rw k (elim (Bool-cases (bit_and value 0x80000000 == 0x80000000)) [
      | inl l ↦ rw l v
      | inr l ↦ rw l v
    ])
  ])
]

block_word-StaysIn : (s : State) (value : ℕ) → StaysIn s → StaysIn (lcd2_push_block_word s value)
unfolding lcd2_push_block_word counted
block_word-StaysIn s value v =
    let d = s.lcd2 in
    let first = bit_and value 0xffff in
    let second = u16 (value / 2 ^ 16) in
    elim (Bool-cases ((d.block_pixels_remaining == 0) && is_apple s.opts.profile)) [
      | inl h ↦ rw h v
      | inr h ↦ rw h (elim (Bool-cases (d.block_pixels_remaining == 0)) [
        | inl k ↦
            rw k (push-IsInBounds (lcd2_push_pixel d first) second (push-IsInBounds d first v))
        | inr k ↦ rw k (
            finish-IsInBounds (counted s (push_block_pixel (push_block_pixel d first) second)).lcd2
              (push_block_pixel-IsInBounds (push_block_pixel d first) second
                (push_block_pixel-IsInBounds d first v)))
      ])
    ]

-- From a display whose window and cursor lie within its memory, every write of any value at any
-- offset of its registers leaves both there, with the window's corners in order: the clamps of the
-- window, the jumps of the cursor and the pixels of the two pixel streams included.
pub lcd2_write-StaysIn :
    (s : State) (offset value : ℕ) → StaysIn s → StaysIn (lcd2_write s offset value)
unfolding lcd2_write
lcd2_write-StaysIn s offset value v =
    let t = record s {
      lcd2 = record s.lcd2 {
        regs = if ltb offset 0x200 then store s.lcd2.regs (offset / 4) value else s.lcd2.regs;
      };
    } in
    elim (Bool-cases ((offset == 0x00) || (offset == 0x0c))) [
      | inl h ↦ rw h (port-StaysIn t value v)
      | inr h ↦ rw h (elim (Bool-cases (offset == 0x04)) [
        | inl k ↦ rw k v
        | inr k ↦ rw k (elim (Bool-cases (offset == 0x20)) [
          | inl l ↦ rw l (elim (Bool-cases (bit_and value 0x30000000 == 0x30000000)) [
            | inl m ↦ rw m (start_block-IsInBounds (record t.lcd2 { block_ctrl = value }) v)
            | inr m ↦ rw m v
          ])
          | inr l ↦ rw l (elim (Bool-cases (offset == 0x24)) [
            | inl m ↦ rw m v
            | inr m ↦ rw m (elim (Bool-cases (offset == 0x100)) [
              | inl n ↦ rw n (block_word-StaysIn t value v)
              | inr n ↦ rw n v
            ])
          ])
        ])
      ])
    ]
