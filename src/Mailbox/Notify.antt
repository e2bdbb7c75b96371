-- ===== src/Mailbox/Notify.antt =====
-- A message that one core posts reaches its owner, once.
use nano1g_unicorn_c.Base.{
  ℕ, true, false, ◌==◌, if◌then◌else◌, bit_or, Core, cpu, cop, get, ◌≡◌, arith,
}
use nano1g_unicorn_c.Word.{test_bits, bit_and-clear_self, bit_and-or_self}
use nano1g_unicorn_c.State.{State}
use nano1g_unicorn_c.Mailbox.{irq_mask, queue_notify, other_core, mailbox_read, mailbox_write}

-- The interrupt status of a core.
abbrev pub status_of : State → Core → ℕ
status_of s cpu = s.intc.cpu_status
status_of s cop = s.intc.cop_status

-- The register through which the queue of a core is written and read.
abbrev pub queue_offset : Core → ℕ
queue_offset cpu = 0x10
queue_offset cop = 0x20

-- A post by either core, followed by the owner's read: the post raises the owner's interrupt; the
-- read returns the queue with the message added, 0 having become a notification, and empties it; it
-- acknowledges the interrupt; the other core's interrupt status and the shared bits stay as they were.
pub post_reaches_owner :
    (s : State) (poster owner : Core) (value : ℕ)
    → let t = mailbox_write s poster (queue_offset owner) value in
      let (message, u) = mailbox_read t owner (queue_offset owner) 4 in
      (test_bits (status_of t owner) irq_mask ≡ true)
      × (message ≡ bit_or (get s.mailbox.queue owner) (if value == 0 then queue_notify else value))
      × (get u.mailbox.queue owner ≡ 0)
      × (test_bits (status_of u owner) irq_mask ≡ false)
      × (status_of u (other_core owner) ≡ status_of s (other_core owner))
      × (u.mailbox.shared_bits ≡ s.mailbox.shared_bits)
unfolding mailbox_write mailbox_read
post_reaches_owner s poster cpu value = ground (
  arith,
  bit_and-or_self s.intc.cpu_status irq_mask,
  bit_and-clear_self (bit_or s.intc.cpu_status irq_mask) irq_mask (omega arith),
)
post_reaches_owner s poster cop value = ground (
  arith,
  bit_and-or_self s.intc.cop_status irq_mask,
  bit_and-clear_self (bit_or s.intc.cop_status irq_mask) irq_mask (omega arith),
)

-- A read of any mailbox register by the other core leaves a core's queue and its interrupt status
-- as they were: only the owner takes a message.
message_waits :
    (s : State) (owner : Core) (offset size : ℕ)
    → let u = (mailbox_read s (other_core owner) offset size).1 in
      (get u.mailbox.queue owner ≡ get s.mailbox.queue owner)
      × (status_of u owner ≡ status_of s owner)
unfolding mailbox_read
message_waits s cpu offset size = ground arith
message_waits s cop offset size = ground arith
