-- ===== src/Serial.antt =====
-- src/dev_serial.c: two UARTs with the registers of a 16550 at a spacing of four bytes.
pub mod Line
mod Tests
use nano1g_unicorn_c.Base.{
  ℕ, ◌+◌, ◌-◌, ◌*◌, ◌/◌, ◌%◌, ◌^◌, Bool, true, false, not, ◌&&◌, ◌||◌, ltb, leb, ◌==◌,
  if◌then◌else◌, bit_and, bit_or, Array, store, Core, cpu, cop, get, put,
}
use nano1g_unicorn_c.Word.{u8, u64, clear_bits, test_bits, align4, mask_for_size}
use nano1g_unicorn_c.State.{State, SerialChannel}
use nano1g_unicorn_c.Irq.{drive_hi}

unfoldable pub byte_result : ℕ → ℕ → ℕ → ℕ
byte_result value offset size =
    if not (bit_and offset 3 == 0) then 0 else bit_and value (mask_for_size size)

-- The interrupt identification: line errors, then received data, then an empty transmitter.
unfoldable pub serial_iir : SerialChannel → ℕ
serial_iir uart =
    let fifo = if test_bits uart.fcr 0x01 then 0xc0 else 0 in
    if test_bits uart.ier 0x04 && test_bits uart.lsr 0x1e
    then bit_or fifo 0x06
    else if test_bits uart.ier 0x01 && test_bits uart.lsr 0x01
    then bit_or fifo 0x04
    else if test_bits uart.ier 0x02 && uart.thre_irq_pending
    then bit_or fifo 0x02
    else bit_or fifo 0x01

-- 1u << (4u + channel).
abbrev pub irq_bit : Core → ℕ
irq_bit cpu = 0x10
irq_bit cop = 0x20

-- The channels 0 and 1 are numbered by cpu and cop.
unfoldable pub serial_update_irq : State → Core → State
serial_update_irq s channel =
    let pending = bit_and (serial_iir (get s.serial channel)) 0x01 == 0 in
    record s { intc = drive_hi pending (irq_bit channel) s.intc }

abbrev pub dlab : SerialChannel → Bool
dlab uart = test_bits uart.lcr 0x80

abbrev pub set_uart : State → Core → SerialChannel → State
set_uart s channel uart = record s { serial = put s.serial channel uart }

-- The registers, but for the acknowledgement that a read of the identification makes.
unfoldable pub uart_value : SerialChannel → ℕ → ℕ
uart_value uart reg =
    if reg == 0x00
    then (if dlab uart then uart.dll else 0)
    else if reg == 0x04
    then (if dlab uart then uart.dlm else uart.ier)
    else if reg == 0x08
    then serial_iir uart
    else if reg == 0x0c
    then uart.lcr
    else if reg == 0x10
    then uart.mcr
    else if reg == 0x14
    then bit_or (bit_or uart.lsr 0x20) 0x40
    else if reg == 0x18
    then uart.msr
    else if reg == 0x1c
    then uart.spr
    else uart.extended (reg - 0x20)

-- n1g_dev_serial_read, of one of the two channels.
unfoldable pub serial_read : State → Core → ℕ → ℕ → ℕ × State
unfolding byte_result uart_value serial_update_irq
serial_read s channel offset size =
    let uart = get s.serial channel in
    let reg = align4 offset in
    let acked =
      serial_update_irq (set_uart s channel (record uart { thre_irq_pending = false })) channel in
    let value = uart_value uart reg in
    if leb 0x40 offset then (0, s) else (
      byte_result value offset size,
      if (reg == 0x08) && (bit_and value 0x0f == 0x02) then acked else s,
    )

-- The switch of n1g_dev_serial_write, on the channel.
unfoldable pub uart_write : SerialChannel → ℕ → ℕ → SerialChannel
uart_write uart reg byte =
    let enable_thre = not (test_bits uart.ier 0x02) && test_bits byte 0x02 in
    let fifo = record uart { fcr = bit_and byte 0x01 } in
    let cleared =
      if test_bits byte 0x04 && test_bits uart.ier 0x02
      then record fifo { thre_irq_pending = true }
      else fifo in
    if reg == 0x00
    then (if dlab uart then record uart { dll = byte } else record uart {
      tx_bytes = u64 (uart.tx_bytes + 1);
      thre_irq_pending = test_bits uart.ier 0x02;
    })
    else if reg == 0x04
    then (if dlab uart then record uart { dlm = byte } else record uart {
      ier = bit_and byte 0x0f;
      thre_irq_pending = enable_thre || uart.thre_irq_pending;
    })
    else if reg == 0x08
    then (if test_bits byte 0x02
        then record cleared { lsr = clear_bits cleared.lsr 0x01 }
        else cleared)
    else if reg == 0x0c
    then record uart { lcr = byte }
    else if reg == 0x10
    then record uart { mcr = byte }
    else if (reg == 0x14) || (reg == 0x18)
    then uart
    else if reg == 0x1c
    then record uart { spr = byte }
    else record uart { extended = store uart.extended (reg - 0x20) byte }

-- n1g_dev_serial_write, of one of the two channels.
unfoldable pub serial_write : State → Core → ℕ → ℕ → State
unfolding uart_write serial_update_irq
serial_write s channel offset value =
    let uart = get s.serial channel in
    if leb 0x40 offset || not (bit_and offset 3 == 0)
    then s
    else serial_update_irq (set_uart s channel (uart_write uart (align4 offset) (u8 value))) channel

-- n1g_dev_serial_tick.
unfoldable pub serial_tick : State → State
unfolding serial_update_irq
serial_tick s = serial_update_irq (serial_update_irq s cpu) cop
