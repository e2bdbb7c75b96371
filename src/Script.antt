-- ===== src/Script.antt =====
-- src/input_script.c: the player of scripted input events. The parser of their text and the pictures
-- are left out.
pub mod Ends
mod Tests
use nano1g_unicorn_c.Base.{
  ℕ, zero, suc, ◌+◌, ◌-◌, Bool, true, false, ◌&&◌, ltb, leb, ◌==◌, if◌then◌else◌, Array,
}
use nano1g_unicorn_c.State.{State}
use nano1g_unicorn_c.Opto.{Button, Turn, opto_button, opto_wheel}
use nano1g_unicorn_c.Gpio.{gpio_set_hold}

-- What an event of a switch names: the hold switch or a button.
pub data Control : Type 0 where
  hold : Control
  button : Button → Control

-- n1g_input_event_t: a kind with the fields that the player reads of it.
pub data Event : Type 0 where
  wait : ℕ → Event
  wheel : Turn → Event
  frame : Event
  switch : Control → Bool → Event

-- n1g_input_script_t.
pub record Script : Type 0 where
  pub events : Array Event
  pub count : ℕ
  pub cursor : ℕ
  pub wait_left : ℕ

abbrev pub next_cursor : Script → Script
next_cursor p = record p { cursor = p.cursor + 1 }

-- One round of the player's loop, and whether the loop goes on. A frame writes a picture.
unfoldable pub play_event : Event → Script → State → (Script × State) × Bool
play_event (wait ticks) p s =
    if ltb 0 ticks
    then ((record (next_cursor p) { wait_left = ticks - 1 }, s), false)
    else ((next_cursor p, s), true)
play_event (wheel delta) p s = ((next_cursor p, opto_wheel s delta), true)
play_event frame p s = ((next_cursor p, s), true)
play_event (switch hold down) p s = ((next_cursor p, gpio_set_hold s down), true)
play_event (switch (button b) down) p s = ((next_cursor p, (opto_button s b down).1), true)

-- The loop over the events that are left.
unfoldable pub play_events : ℕ → Script → State → Script × State
play_events zero p s = (p, s)
play_events (suc n) p s =
    let ((q, t), goes_on) = play_event (p.events p.cursor) p s in
    let rest = play_events n q t in if goes_on then rest else (q, t)

-- n1g_input_script_tick, n1g_input_script_advance_wait and n1g_input_script_done.
unfoldable pub script_tick : Script → State → Script × State
script_tick p s =
    if ltb 0 p.wait_left
    then (record p { wait_left = p.wait_left - 1 }, s)
    else play_events (p.count - p.cursor) p s

unfoldable pub script_advance_wait : Script → ℕ → Script
script_advance_wait p ticks = record p {
  wait_left = p.wait_left - (if ltb p.wait_left ticks then p.wait_left else ticks);
}

unfoldable pub script_done : Script → Bool
script_done p = leb p.count p.cursor && (p.wait_left == 0)
