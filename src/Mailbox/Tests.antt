-- ===== src/Mailbox/Tests.antt =====
-- The mailbox's theorems at concrete states.
use nano1g_unicorn_c.Base.{◌≡◌, ◌==◌, true, false, cpu, cop, get, bit_or, if◌then◌else◌}
use nano1g_unicorn_c.State.{State}
use nano1g_unicorn_c.Sample.{idle}
use nano1g_unicorn_c.Word.{test_bits}
use nano1g_unicorn_c.Mailbox.{irq_mask, queue_notify, mailbox_write, mailbox_read}
use nano1g_unicorn_c.Mailbox.Notify.{status_of, post_reaches_owner}

-- A message for the coprocessor is there already.
abbrev posted : State
posted = record idle {
  intc = record idle.intc { cop_status = 0x10 };
  mailbox = record { shared_bits = 0; queue = record { at0 = 0; at1 = 0x40 } };
}

post_reaches_owner_example :
    let t = mailbox_write posted cpu 0x20 0 in
    let (message, u) = mailbox_read t cop 0x20 4 in
    (test_bits (status_of t cop) irq_mask ≡ true)
    × (message ≡ bit_or (get posted.mailbox.queue cop) (if 0 == 0 then queue_notify else 0))
    × (get u.mailbox.queue cop ≡ 0)
    × (test_bits (status_of u cop) irq_mask ≡ false)
    × (status_of u cpu ≡ status_of posted cpu)
    × (u.mailbox.shared_bits ≡ posted.mailbox.shared_bits)
post_reaches_owner_example = post_reaches_owner posted cpu cop 0
