-- ===== src/Mailbox.antt =====
-- src/dev_mailbox.c: the mailbox between the two cores. Its log lines are not modelled.
pub mod Notify
mod Tests
use nano1g_unicorn_c.Base.{
  ℕ, ◌*◌, ◌^◌, Bool, true, false, ◌&&◌, leb, ◌==◌, if◌then◌else◌, bit_and, bit_or, Core, cpu, cop,
  get, put,
}
use nano1g_unicorn_c.Word.{clear_bits}
use nano1g_unicorn_c.State.{State, Intc, Mailbox}

-- 1u << MAILBOX_IRQ_BIT.
abbrev pub irq_mask : ℕ
irq_mask = 0x10

abbrev pub queue_notify : ℕ
queue_notify = 0x20000000

unfoldable pub mask_value : ℕ → ℕ → ℕ
mask_value value size =
    if size == 1 then bit_and value 0xff else if size == 2 then bit_and value 0xffff else value

abbrev pub other_core : Core → Core
other_core cpu = cop
other_core cop = cpu

pub set_mailbox_irq : Core → Intc → Intc
set_mailbox_irq cpu n = record n { cpu_status = bit_or n.cpu_status irq_mask }
set_mailbox_irq cop n = record n { cop_status = bit_or n.cop_status irq_mask }

pub clear_mailbox_irq : Core → Intc → Intc
clear_mailbox_irq cpu n = record n { cpu_status = clear_bits n.cpu_status irq_mask }
clear_mailbox_irq cop n = record n { cop_status = clear_bits n.cop_status irq_mask }

abbrev is_core : Core → Core → Bool
is_core cpu cpu = true
is_core cpu cop = false
is_core cop cpu = false
is_core cop cop = true

-- A read of the queue of `owner`: only the owner empties it and acknowledges its interrupt.
read_queue : State → Core → Core → State
unfolding clear_mailbox_irq
read_queue s core owner =
    if is_core core owner
    then record s {
      mailbox = record s.mailbox { queue = put s.mailbox.queue owner 0 };
      intc = clear_mailbox_irq owner s.intc;
    }
    else s

-- n1g_dev_mailbox_read.
unfoldable pub mailbox_read : State → Core → ℕ → ℕ → ℕ × State
unfolding mask_value read_queue clear_mailbox_irq
mailbox_read s core offset size =
    if offset == 0x00
    then (mask_value s.mailbox.shared_bits size, record s { intc = clear_mailbox_irq core s.intc })
    else if leb 0x10 offset && leb offset 0x1f
    then (mask_value s.mailbox.queue.at0 size, read_queue s core cpu)
    else if leb 0x20 offset && leb offset 0x2f
    then (mask_value s.mailbox.queue.at1 size, read_queue s core cop)
    else (mask_value 0 size, s)

-- A post to the queue of `owner`. A message of 0 still notifies.
post_queue : State → Core → ℕ → State
unfolding set_mailbox_irq
post_queue s owner value =
    let message = if value == 0 then queue_notify else value in
    record s {
      mailbox = record s.mailbox {
        queue = put s.mailbox.queue owner (bit_or (get s.mailbox.queue owner) message);
      };
      intc = set_mailbox_irq owner s.intc;
    }

-- n1g_dev_mailbox_write; it does not use the size.
unfoldable pub mailbox_write : State → Core → ℕ → ℕ → State
unfolding post_queue set_mailbox_irq
mailbox_write s core offset value =
    if offset == 0x04
    then record s {
      mailbox = record s.mailbox { shared_bits = bit_or s.mailbox.shared_bits value };
      intc = set_mailbox_irq (other_core core) s.intc;
    }
    else if offset == 0x08
    then record s {
      mailbox = record s.mailbox { shared_bits = clear_bits s.mailbox.shared_bits value };
      intc = set_mailbox_irq (other_core core) s.intc;
    }
    else if leb 0x10 offset && leb offset 0x1f
    then post_queue s cpu value
    else if leb 0x20 offset && leb offset 0x2f
    then post_queue s cop value
    else s
