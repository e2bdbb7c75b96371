-- ===== src/Opto/Wheel.antt =====
-- The click wheel's position: the loop that brings a negative position back to the circle ends, and
-- turns undo each other.
use nano1g_unicorn_c.Base.{
  ℕ, zero, suc, ◌+◌, ◌-◌, ◌%◌, ◌≤◌, ◌<◌, ◌≡◌, false, leb, if◌then◌else◌, Bool-cases, inl, inr, refl,
  arith, ap, ◌∙◌, leb→le, leb→lt,
}
use nano1g_unicorn_c.State.{State}
use nano1g_unicorn_c.Opto.{
  Turn, turn_down, turn_up, climb, turned, is_repeated, enqueue_status, push_packet, wheel_packet,
  suppress, opto_wheel,
}

-- On as much fuel as the position lacks, the loop ends at the place on the circle.
climb-circle :
    (fuel lack : ℕ)
    → 0 < lack
    → lack ≤ fuel
    → (climb fuel lack < 96) × ((climb fuel lack + lack) % 96 ≡ 0)
unfolding climb
climb-circle zero lack pos le = absurd (omega arith)
climb-circle (suc fuel) lack pos le = elim (Bool-cases (leb lack 96)) [
  | inl h ↦ rw h (omega (arith, leb→le lack 96 h), omega (arith, leb→le lack 96 h))
  | inr h ↦
      let gt = leb→lt lack 96 h in
      let (a, b) = climb-circle fuel (lack - 96) (omega (arith, gt)) (omega (arith, le, pos)) in
      rw h (a, omega (arith, b, gt))
]

turned-up : (pos delta : ℕ) → (turned pos (turn_up delta) + delta) % 96 ≡ pos % 96
unfolding turned
turned-up pos delta = elim (Bool-cases (leb delta pos)) [
  | inl h ↦ rw h (omega (arith, leb→le delta pos h))
  | inr h ↦
      let lt = leb→lt delta pos h in
      let (a, b) = climb-circle delta (delta - pos) (omega (arith, lt)) (omega arith) in
      rw h (omega (arith, b, lt))
]

turned-down : (pos delta : ℕ) → turned pos (turn_down delta) ≡ (pos + delta) % 96
unfolding turned
turned-down pos delta = refl

turned-lt : (pos : ℕ) (delta : Turn) → turned pos delta < 96
unfolding turned
turned-lt pos (turn_down delta) = omega arith
turned-lt pos (turn_up delta) = omega arith

up_down : (pos delta : ℕ) → pos < 96 → turned (turned pos (turn_up delta)) (turn_down delta) ≡ pos
up_down pos delta lt =
    omega (arith, turned-up pos delta, turned-down (turned pos (turn_up delta)) delta)

down_up : (pos delta : ℕ) → pos < 96 → turned (turned pos (turn_down delta)) (turn_up delta) ≡ pos
down_up pos delta lt =
    let p = turned pos (turn_down delta) in
    omega (arith, turned-up p delta, turned-down pos delta, turned-lt p (turn_up delta))

enqueue-wheel_pos :
    (s : State) (status : ℕ) → (enqueue_status s status).opto.wheel_pos ≡ s.opto.wheel_pos
unfolding enqueue_status push_packet
enqueue-wheel_pos s status = elim (Bool-cases (is_repeated s.opto status)) [
  | inl h ↦ rw h refl
  | inr h ↦ rw h refl
]

enqueue-opts : (s : State) (status : ℕ) → (enqueue_status s status).opts ≡ s.opts
unfolding enqueue_status
enqueue-opts s status = elim (Bool-cases (is_repeated s.opto status)) [
  | inl h ↦ rw h refl
  | inr h ↦ rw h refl
]

abbrev moved : State → Turn → State
moved s delta = record s { opto = record s.opto { wheel_pos = turned s.opto.wheel_pos delta } }

module _ (s : State) (delta : Turn) (free : s.opts.hold_switch_engaged ≡ false) where
  wheel-free :
      opto_wheel s delta ≡ enqueue_status (moved s delta) (wheel_packet (moved s delta).opto)
  unfolding opto_wheel
  wheel-free =
      ap
        (λ held.
          if held
          then suppress s
          else enqueue_status (moved s delta) (wheel_packet (moved s delta).opto))
        free

  wheel-wheel_pos : (opto_wheel s delta).opto.wheel_pos ≡ turned s.opto.wheel_pos delta
  wheel-wheel_pos =
      ap (λ t. t.opto.wheel_pos) wheel-free
      ∙ (enqueue-wheel_pos (moved s delta) (wheel_packet (moved s delta).opto))

  wheel-opts : (opto_wheel s delta).opts ≡ s.opts
  wheel-opts =
      ap (λ t. t.opts) wheel-free
      ∙ (enqueue-opts (moved s delta) (wheel_packet (moved s delta).opto))

-- With the hold switch off, the wheel's position after a turn is on its circle of 96, and a turn and
-- the same turn back, in either order and of any size, leave it where it was: the loop that adds 96
-- to a negative position ends there.
opto_wheel-returns :
    (s : State) (delta : ℕ)
    → s.opts.hold_switch_engaged ≡ false
    → s.opto.wheel_pos < 96
    → ((opto_wheel s (turn_up delta)).opto.wheel_pos < 96)
      × ((opto_wheel (opto_wheel s (turn_down delta)) (turn_up delta)).opto.wheel_pos
          ≡ s.opto.wheel_pos)
      × ((opto_wheel (opto_wheel s (turn_up delta)) (turn_down delta)).opto.wheel_pos
          ≡ s.opto.wheel_pos)
opto_wheel-returns s delta free lt =
    let pos = s.opto.wheel_pos in
    let down = opto_wheel s (turn_down delta) in
    let up = opto_wheel s (turn_up delta) in
    let down_free = ap (λ o. o.hold_switch_engaged) (wheel-opts s (turn_down delta) free) ∙ free in
    let up_free = ap (λ o. o.hold_switch_engaged) (wheel-opts s (turn_up delta) free) ∙ free in
    let at_down = wheel-wheel_pos s (turn_down delta) free in
    let at_up = wheel-wheel_pos s (turn_up delta) free in
    (
      omega (arith, at_up, turned-lt pos (turn_up delta)),
      wheel-wheel_pos down (turn_up delta) down_free
          ∙ ap (λ p. turned p (turn_up delta)) at_down
          ∙ down_up pos delta lt,
      wheel-wheel_pos up (turn_down delta) up_free
          ∙ ap (λ p. turned p (turn_down delta)) at_up
          ∙ up_down pos delta lt,
    )
