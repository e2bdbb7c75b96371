-- ===== src/Opto.antt =====
-- src/dev_opto.c: the buttons and the click wheel, whose packets wait in a queue of eight. The text of
-- the last input and the log lines are left out.
pub mod Queue
pub mod Wheel
mod Tests
use nano1g_unicorn_c.Base.{
  ℕ, zero, suc, ◌+◌, ◌-◌, ◌*◌, ◌/◌, ◌%◌, ◌^◌, Bool, true, false, not, ◌&&◌, ◌||◌, ltb, leb, ◌==◌,
  if◌then◌else◌, bit_and, bit_or, store, Duo,
}
use nano1g_unicorn_c.Word.{u8, u32, u64, clear_bits, test_bits, align4, shl32, read_part}
use nano1g_unicorn_c.State.{State, Opto}
use nano1g_unicorn_c.Irq.{drive_hi}
use nano1g_unicorn_c.I2c.Standby.{i2c_onkey}

-- The names of buttons that button_bit compares with, and any other text.
pub data Button : Type 0 where
  select right next left prev play down menu other : Button

unfoldable pub button_bit : Button → ℕ
button_bit select = 0x0100
button_bit right = 0x0200
button_bit next = 0x0200
button_bit left = 0x0400
button_bit prev = 0x0400
button_bit play = 0x0800
button_bit down = 0x0800
button_bit menu = 0x1000
button_bit other = 0

abbrev is_menu : Button → Bool
is_menu menu = true
is_menu select = false
is_menu right = false
is_menu next = false
is_menu left = false
is_menu prev = false
is_menu play = false
is_menu down = false
is_menu other = false

abbrev pub packet_base : ℕ
packet_base = 0x8000001a

abbrev pub packet : Opto → ℕ
packet o = bit_or packet_base o.button_bits

-- The queue's part of enqueue_status: the oldest packet of a full queue is lost.
unfoldable pub push_packet : Opto → ℕ → Opto
push_packet o status =
    let full = leb 8 o.queue_len in
    let head = if full then bit_and (o.queue_head + 1) 7 else o.queue_head in
    let len = if full then o.queue_len - 1 else o.queue_len in
    record o {
      queue = store o.queue (bit_and (head + len) 7) status;
      queue_head = head;
      queue_len = len + 1;
      input_events = u64 (o.input_events + 1);
    }

-- Whether the newest packet is the same one.
unfoldable pub is_repeated : Opto → ℕ → Bool
is_repeated o status =
    ltb 0 o.queue_len && (o.queue (u8 (bit_and (o.queue_head + o.queue_len - 1) 7)) == status)

unfoldable pub enqueue_status : State → ℕ → State
unfolding push_packet is_repeated
enqueue_status s status =
    if is_repeated s.opto status
    then s
    else record s { opto = push_packet s.opto status; intc = drive_hi true 0x100 s.intc }

unfoldable pub drop_packet : Opto → Opto
drop_packet o =
    if ltb 0 o.queue_len
    then record o { queue_head = bit_and (o.queue_head + 1) 7; queue_len = o.queue_len - 1 }
    else o

unfoldable pub clear_status : State → State
unfolding drop_packet
clear_status s =
    let o = drop_packet s.opto in
    record s { opto = o; intc = drive_hi (not (o.queue_len == 0)) 0x100 s.intc }

unfoldable pub opto_value : Opto → ℕ → ℕ
opto_value o aligned =
    if aligned == 0x04
    then bit_or (o.regs 1) (if o.queue_len == 0 then 0 else 0x0c000000)
    else if aligned == 0x40
    then (if o.queue_len == 0 then packet o else o.queue o.queue_head)
    else o.regs (aligned / 4)

unfoldable pub opto_read : State → ℕ → ℕ → ℕ
unfolding opto_value
opto_read s offset size =
    if ltb (align4 offset) 0x100
    then read_part (opto_value s.opto (align4 offset)) offset size
    else 0

unfoldable pub opto_write : State → ℕ → ℕ → State
unfolding clear_status
opto_write s offset value =
    let aligned = align4 offset in
    if leb 0x100 aligned
    then s
    else if (aligned == 0x00) || (aligned == 0x40)
    then clear_status s
    else record s { opto = record s.opto { regs = store s.opto.regs (aligned / 4) value } }

-- suppress_for_hold: the hold switch swallows the input.
abbrev pub suppress : State → State
suppress s = record s {
  opto = record s.opto { suppressed_events = u64 (s.opto.suppressed_events + 1) };
}

abbrev press_on : State → State
press_on s = record s { i2c = i2c_onkey s.i2c true }

-- n1g_dev_opto_button: false for a name it does not know.
unfoldable pub opto_button : State → Button → Bool → Bool × State
unfolding button_bit enqueue_status
opto_button s button pressed =
    let bit = button_bit button in
    let bits =
      if pressed then bit_or s.opto.button_bits bit else clear_bits s.opto.button_bits bit in
    let t = record s { opto = record s.opto { button_bits = bits } } in
    if bit == 0
    then (false, s)
    else if pressed && is_menu button && s.i2c.pcf_standby
    then (true, press_on s)
    else if s.opts.hold_switch_engaged
    then (true, suppress s)
    else (true, enqueue_status t (packet t.opto))

-- n1g_dev_opto_tap: a press whose release is due in `hold_ticks`.
unfoldable pub opto_tap : State → Button → ℕ → Bool × State
unfolding button_bit enqueue_status
opto_tap s button hold_ticks =
    let bit = button_bit button in
    let up = record s {
      opto = record s.opto {
        button_bits = clear_bits s.opto.button_bits s.opto.pending_release_bits;
      };
    } in
    let released =
      if s.opto.pending_release_bits == 0 then s else enqueue_status up (packet up.opto) in
    let t = record released {
      opto = record released.opto {
        button_bits = bit_or released.opto.button_bits bit;
        pending_release_bits = bit;
        pending_release_tick = u64 (s.counters.device_ticks + hold_ticks);
      };
    } in
    if bit == 0
    then (false, s)
    else if is_menu button && s.i2c.pcf_standby
    then (true, press_on s)
    else if s.opts.hold_switch_engaged
    then (true, suppress s)
    else (true, enqueue_status t (packet t.opto))

-- A step of the wheel.
pub data Turn : Type 0 where
  turn_down turn_up : ℕ → Turn

-- The loop of n1g_dev_opto_wheel that adds 96 to a position below 0, which is given by what it lacks.
-- The fuel is never used up: a round takes 96 from `lack`.
unfoldable pub climb : ℕ → ℕ → ℕ
climb zero lack = 0
climb (suc fuel) lack = let rest = climb fuel (lack - 96) in if leb lack 96 then 96 - lack else rest

-- The position after a turn.
unfoldable pub turned : ℕ → Turn → ℕ
unfolding climb
turned pos (turn_down delta) = (pos + delta) % 96
turned pos (turn_up delta) = (if leb delta pos then pos - delta else climb delta (delta - pos)) % 96

abbrev pub wheel_packet : Opto → ℕ
wheel_packet o =
    bit_or (bit_or (bit_or packet_base 0x40000000) (shl32 o.wheel_pos 16)) o.button_bits

unfoldable pub opto_wheel : State → Turn → State
unfolding turned enqueue_status
opto_wheel s delta =
    let t = record s { opto = record s.opto { wheel_pos = turned s.opto.wheel_pos delta } } in
    if s.opts.hold_switch_engaged then suppress s else enqueue_status t (wheel_packet t.opto)

unfoldable pub opto_release_all : State → State
unfolding enqueue_status
opto_release_all s =
    let o = s.opto in
    let t = record s {
      opto = record o { button_bits = 0; pending_release_bits = 0; pending_release_tick = 0 };
    } in
    if (o.button_bits == 0) && (o.pending_release_bits == 0)
    then s
    else enqueue_status t packet_base

unfoldable pub opto_tick : State → State
unfolding enqueue_status
opto_tick s =
    let o = s.opto in
    let t = record s {
      opto = record o {
        button_bits = clear_bits o.button_bits o.pending_release_bits;
        pending_release_bits = 0;
        pending_release_tick = 0;
      };
    } in
    if (o.pending_release_bits == 0) || ltb s.counters.device_ticks o.pending_release_tick
    then s
    else enqueue_status t (packet t.opto)
