-- ===== src/Gpio.antt =====
-- src/dev_gpio.c: three groups of four ports, with input pins for the hold switch and the chargers,
-- and an interrupt for the pins that reach their level.
pub mod Pending
mod Tests
use nano1g_unicorn_c.Base.{
  ℕ, zero, suc, ◌+◌, ◌-◌, ◌*◌, ◌/◌, ◌%◌, ◌^◌, Bool, true, false, not, ◌&&◌, ◌||◌, ltb, leb, ◌==◌,
  if◌then◌else◌, bit_and, bit_or, bit_xor, Array, store,
}
use nano1g_unicorn_c.Word.{
  u64, clear_bits, not32, test_bits, align4, byte_shift, shl32, mask_for_size, read_part,
}
use nano1g_unicorn_c.State.{State, Opts}
use nano1g_unicorn_c.Irq.{drive_hi}
use nano1g_unicorn_c.Opto.{opto_release_all}
use nano1g_unicorn_c.I2c.Standby.{i2c_charger_event}
use nano1g_unicorn_c.Backlight.{backlight_gpio_write}

-- The kind of a register, from its place in the group of 0x80 bytes.
abbrev local_in : ℕ → ℕ → Bool
local_in first aligned =
    leb first (bit_and aligned 0x7f) && leb (bit_and aligned 0x7f) (first + 0x0c)

unfoldable pub is_input_value_reg : ℕ → Bool
is_input_value_reg aligned = local_in 0x30 aligned

unfoldable pub is_interrupt_status_reg : ℕ → Bool
is_interrupt_status_reg aligned = local_in 0x40 aligned

unfoldable pub is_interrupt_enable_reg : ℕ → Bool
is_interrupt_enable_reg aligned = local_in 0x50 aligned

unfoldable pub is_interrupt_level_reg : ℕ → Bool
is_interrupt_level_reg aligned = local_in 0x60 aligned

unfoldable pub is_interrupt_clear_reg : ℕ → Bool
is_interrupt_clear_reg aligned = local_in 0x70 aligned

-- The pins: the hold switch and the main charger's are low when active, the rest idle high.
unfoldable pub gpio_input_value : Opts → ℕ → ℕ
gpio_input_value opts aligned =
    let idle : ℕ = 0xffffffff in
    let hold = if opts.hold_switch_engaged then clear_bits idle 0x20 else bit_or idle 0x20 in
    let main = if opts.main_charger_connected then clear_bits idle 0x08 else bit_or idle 0x08 in
    if aligned == 0x030
    then hold
    else if aligned == 0x13c
    then (if opts.usb_charger_connected then bit_or main 0x10 else clear_bits main 0x10)
    else idle

-- The loops of gpio_irq_sync, over the ports up to `port` and the groups up to `group`.
unfoldable pub port_pending : Array ℕ → ℕ → ℕ → Bool
port_pending regs base zero = false
port_pending regs base (suc port) =
    port_pending regs base port
    || test_bits (regs ((base + 0x40 + port * 4) / 4)) (regs ((base + 0x50 + port * 4) / 4))

unfoldable pub group_pending : Array ℕ → ℕ → Bool
group_pending regs zero = false
group_pending regs (suc group) = group_pending regs group || port_pending regs (group * 0x80) 4

unfoldable pub gpio_irq_sync : State → State
gpio_irq_sync s = record s { intc = drive_hi (group_pending s.gpio 3) 0x01 s.intc }

-- A changed pin sets its status bit if it is now at the level that its level register names.
unfoldable pub gpio_latch_input_change : State → ℕ → ℕ → ℕ → State
gpio_latch_input_change s input_offset old_input input =
    let group = clear_bits input_offset 0x7f in
    let port = bit_and input_offset 0x0c in
    let status = (group + 0x40 + port) / 4 in
    let level = s.gpio ((group + 0x60 + port) / 4) in
    let latched = bit_and (bit_xor old_input input) (not32 (bit_xor input level)) in
    gpio_irq_sync (record s { gpio = store s.gpio status (bit_or (s.gpio status) latched) })

abbrev same : Bool → Bool → Bool
same a b = if a then b else not b

abbrev count_input : State → State
count_input s = record s { opto = record s.opto { input_events = u64 (s.opto.input_events + 1) } }

unfoldable pub gpio_set_hold : State → Bool → State
gpio_set_hold s engaged =
    let old_input = gpio_input_value s.opts 0x030 in
    let released = if engaged then opto_release_all s else s in
    let t = record released { opts = record released.opts { hold_switch_engaged = engaged } } in
    let latched = gpio_latch_input_change t 0x030 old_input (gpio_input_value t.opts 0x030) in
    if same s.opts.hold_switch_engaged engaged then s else count_input latched

unfoldable pub gpio_set_chargers : State → Bool → Bool → State
gpio_set_chargers s main_connected usb_connected =
    let old_connected = s.opts.main_charger_connected || s.opts.usb_charger_connected in
    let connected = main_connected || usb_connected in
    let t = record s {
      opts = record s.opts {
        main_charger_connected = main_connected;
        usb_charger_connected = usb_connected;
      };
    } in
    let u =
      gpio_latch_input_change t 0x13c (gpio_input_value s.opts 0x13c)
        (gpio_input_value t.opts 0x13c) in
    if same s.opts.main_charger_connected main_connected
      && same s.opts.usb_charger_connected usb_connected
    then s
    else if same connected old_connected
    then u
    else record u { i2c = i2c_charger_event u.i2c connected }

unfoldable pub gpio_read : State → ℕ → ℕ → ℕ
gpio_read s offset size =
    let aligned = align4 offset in
    let value =
      if is_input_value_reg aligned
      then gpio_input_value s.opts aligned
      else s.gpio (aligned / 4) in
    if ltb offset 0xa00 then read_part value offset size else 0

-- What the two kinds of writes share: some bits of a register, or of the status that it clears, and
-- then the interrupt.
unfoldable pub gpio_apply : State → ℕ → ℕ → ℕ → State
gpio_apply s aligned mask bits =
    let status = (aligned - 0x70 + 0x40) / 4 in
    let reg = bit_or (clear_bits (s.gpio (aligned / 4)) mask) (bit_and bits mask) in
    let cleared = record s {
      gpio = store s.gpio status (clear_bits (s.gpio status) (bit_and bits mask));
    } in
    let set =
      backlight_gpio_write (record s { gpio = store s.gpio (aligned / 4) reg }) aligned mask in
    let t = if is_interrupt_clear_reg aligned then cleared else set in
    if is_interrupt_enable_reg aligned
      || is_interrupt_level_reg aligned
      || is_interrupt_clear_reg aligned
    then gpio_irq_sync t
    else t

-- From 0x800 on, the registers are written by bits: a byte of the value, under a byte of a mask.
unfoldable pub gpio_write : State → ℕ → ℕ → ℕ → State
gpio_write s offset size value =
    let target = offset - 0x800 in
    let by_bits = leb 0x800 offset in
    let aligned = align4 (if by_bits then target else offset) in
    let low_mask = shl32 (bit_and (value / 2 ^ 8) 0xff) (byte_shift target) in
    let low_bits = shl32 (bit_and value 0xff) (byte_shift target) in
    let mask = shl32 (mask_for_size size) (byte_shift offset) in
    let bits = shl32 (bit_and value (mask_for_size size)) (byte_shift offset) in
    if leb 0xa00 offset
    then s
    else if is_input_value_reg aligned || is_interrupt_status_reg aligned
    then s
    else if by_bits
    then gpio_apply s aligned low_mask low_bits
    else gpio_apply s aligned mask bits
