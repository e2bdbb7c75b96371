-- ===== src/Opto/Tests.antt =====
-- The click wheel at concrete states.
use nano1g_unicorn_c.Base.{◌+◌, ◌≡◌, refl, arith, [], ◌∷◌}
use nano1g_unicorn_c.State.{State}
use nano1g_unicorn_c.Sample.{idle}
use nano1g_unicorn_c.Opto.{enqueue_status, clear_status, opto_value, packet, turn_up, turned, climb}
use nano1g_unicorn_c.Opto.Queue.{
  items, contents, IsValid, append_packet, tail, first_or, queue-is-list,
}

-- Eight packets, from the place 6 of the ring.
abbrev full : State
full = record idle {
  opto = record idle.opto { queue = λ i. i + 100; queue_head = 6; queue_len = 8 };
}

full-IsValid : IsValid full.opto
full-IsValid = record { head_in = omega arith; len_in = omega arith }

full_contents : contents full.opto ≡ 106 ∷ 107 ∷ 100 ∷ 101 ∷ 102 ∷ 103 ∷ 104 ∷ 105 ∷ []
unfolding items
full_contents = refl

queue-is-list_example :
    (contents (enqueue_status full 5).opto ≡ append_packet (contents full.opto) 5)
    × IsValid (enqueue_status full 5).opto
    × (contents (clear_status full).opto ≡ tail (contents full.opto))
    × IsValid (clear_status full).opto
    × (opto_value full.opto 0x40 ≡ first_or (packet full.opto) (contents full.opto))
queue-is-list_example = queue-is-list full 5 full-IsValid

wheel_wraps : turned 10 (turn_up 20) ≡ 86
unfolding turned climb
wheel_wraps = refl
