-- ===== src/Serial/Line.antt =====
-- The interrupt lines of the two UARTs: what they show, and how the transmitter's is acknowledged.
use nano1g_unicorn_c.Base.{
  ℕ, Bool, false, not, ◌&&◌, ◌||◌, leb, ◌==◌, bit_and, Core, cpu, cop, get, refl, arith, Bool-cases,
  inl, inr, ap, ◌∙◌,
}
use nano1g_unicorn_c.Word.{u8, align4}
use nano1g_unicorn_c.State.{State, SerialChannel}
use nano1g_unicorn_c.Irq.{HoldWords, Shows, drive_hi-Shows, drive_hi-HoldWords, drive_hi-other}
use nano1g_unicorn_c.Serial.{
  serial_iir, serial_update_irq, serial_read, serial_write, serial_tick, irq_bit, uart_write,
  set_uart, uart_value,
}

-- Whether the identification register of a channel names an interrupt.
abbrev pub asks : SerialChannel → Bool
asks uart = bit_and (serial_iir uart) 0x01 == 0

abbrev pub ShowsLine : State → Core → Type 0
ShowsLine s channel =
    Shows s.intc.hi_cpu_status s.intc.hi_cop_status (irq_bit channel) (asks (get s.serial channel))

-- The lines of both channels are right.
pub record IsSynced (s : State) : Type 0 where
  pub words : HoldWords s.intc
  pub line0 : ShowsLine s cpu
  pub line1 : ShowsLine s cop

update0-HoldWords : (s : State) → HoldWords s.intc → HoldWords (serial_update_irq s cpu).intc
unfolding serial_update_irq
update0-HoldWords s w = drive_hi-HoldWords (asks s.serial.at0) 0x10 s.intc w (omega arith)

update0-line0 : (s : State) → ShowsLine (serial_update_irq s cpu) cpu
unfolding serial_update_irq
update0-line0 s = drive_hi-Shows (asks s.serial.at0) 0x10 s.intc (omega arith) refl

-- The update makes its channel's line right, whatever it showed before, and leaves the other's.
update0-IsSynced :
    (s : State) → HoldWords s.intc → ShowsLine s cop → IsSynced (serial_update_irq s cpu)
unfolding serial_update_irq
update0-IsSynced s w h =
    let (same, same') = drive_hi-other (asks s.serial.at0) 0x10 s.intc w (omega arith) 0x20 refl in
    record {
      words = update0-HoldWords s w;
      line0 = update0-line0 s;
      line1 = (ap (λ t. not (t == 0)) same ∙ h.0, ap (λ t. not (t == 0)) same' ∙ h.1);
    }

update1-IsSynced :
    (s : State) → HoldWords s.intc → ShowsLine s cpu → IsSynced (serial_update_irq s cop)
unfolding serial_update_irq
update1-IsSynced s w h =
    let (same, same') = drive_hi-other (asks s.serial.at1) 0x20 s.intc w (omega arith) 0x10 refl in
    record {
      words = drive_hi-HoldWords (asks s.serial.at1) 0x20 s.intc w (omega arith);
      line0 = (ap (λ t. not (t == 0)) same ∙ h.0, ap (λ t. not (t == 0)) same' ∙ h.1);
      line1 = drive_hi-Shows (asks s.serial.at1) 0x20 s.intc (omega arith) refl;
    }

-- A new state of one UART, with its line updated.
changed-IsSynced :
    (s : State) (channel : Core) (uart : SerialChannel)
    → IsSynced s
    → IsSynced (serial_update_irq (set_uart s channel uart) channel)
changed-IsSynced s cpu uart v = update0-IsSynced (set_uart s cpu uart) v.words v.line1
changed-IsSynced s cop uart v = update1-IsSynced (set_uart s cop uart) v.words v.line0

-- From status words of 32 bits in which the lines of both UARTs are right, that is raised in both
-- cores' words exactly when the channel's identification names an interrupt, a write of any value at
-- any offset of either UART leaves both lines right and the words of 32 bits.
pub serial_write-IsSynced :
    (s : State) (channel : Core) (offset value : ℕ)
    → IsSynced s
    → IsSynced (serial_write s channel offset value)
unfolding serial_write
serial_write-IsSynced s channel offset value v =
    elim (Bool-cases (leb 0x40 offset || not (bit_and offset 3 == 0))) [
      | inl h ↦ rw h v
      | inr h ↦ rw h (
          changed-IsSynced s channel (uart_write (get s.serial channel) (align4 offset) (u8 value))
            v)
    ]

-- From the same states, a read of either UART at any offset leaves both lines right, also where it
-- acknowledges the transmitter's interrupt.
pub serial_read-IsSynced :
    (s : State) (channel : Core) (offset size : ℕ)
    → IsSynced s
    → IsSynced (serial_read s channel offset size).1
unfolding serial_read
serial_read-IsSynced s channel offset size v = elim (Bool-cases (leb 0x40 offset)) [
  | inl h ↦ rw h v
  | inr h ↦
      rw h
        (elim (Bool-cases (
          (align4 offset == 0x08)
          && (bit_and (uart_value (get s.serial channel) (align4 offset)) 0x0f == 0x02))) [
            | inl a ↦ rw a (
                changed-IsSynced s channel
                  (record (get s.serial channel) { thre_irq_pending = false }) v)
            | inr a ↦ rw a v
          ])
]

-- A tick makes both lines right from any state of 32-bit status words.
pub serial_tick-IsSynced : (s : State) → HoldWords s.intc → IsSynced (serial_tick s)
unfolding serial_tick
serial_tick-IsSynced s w =
    update1-IsSynced (serial_update_irq s cpu) (update0-HoldWords s w) (update0-line0 s)
