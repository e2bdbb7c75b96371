-- ===== src/I2s/Drain.antt =====
-- The drain loop of the audio port: how many samples a tick plays, and what it leaves.
use nano1g_unicorn_c.Base.{
  ℕ, zero, suc, ◌+◌, ◌-◌, ◌/◌, ◌%◌, ◌^◌, ◌≤◌, ◌<◌, ◌≡◌, true, ltb, leb, ◌==◌, if◌then◌else◌, leb→le,
  leb→lt, Bool-cases, inl, inr, refl, arith, ap, ◌∙◌,
}
use nano1g_unicorn_c.Word.{u64, test_bits}
use nano1g_unicorn_c.State.{State, I2s, I2c}
use nano1g_unicorn_c.I2s.{
  sample_rate, sync_pcm_rate, accrue, next_input, take_input, codec_output_sample, channel_of, emit,
  drain_one, drain, i2s_update_irq, i2s_tick,
}

-- What the accumulator holds and what has been played, of a port.
abbrev pub Played : I2s → ℕ → ℕ → Type 0
Played p acc produced = (p.drain_acc ≡ acc) × (p.pcm_produced_halfwords ≡ produced)

emit-Played :
    (p : I2s) (input output : ℕ)
    → Played (emit p input output) p.drain_acc (u64 (p.pcm_produced_halfwords + 1))
unfolding emit
emit-Played p input output = elim (Bool-cases (output == 0)) [
  | inl h ↦
      rw h
        (elim (Bool-cases (input == 0)) [ inl k ↦ rw k (refl, refl) | inr k ↦ rw k (refl, refl) ])
  | inr h ↦ rw h (refl, refl)
]

take-Played : (p : I2s) → Played (take_input p) p.drain_acc p.pcm_produced_halfwords
unfolding take_input
take-Played p = elim (Bool-cases (ltb 0 p.tx_fill)) [
  | inl h ↦ rw h (refl, refl)
  | inr h ↦ rw h (refl, refl)
]

drain_one-Played :
    (c : I2c) (p : I2s)
    → Played (drain_one c p) (p.drain_acc - 1000000) (u64 (p.pcm_produced_halfwords + 1))
unfolding drain_one
drain_one-Played c p =
    let q = record p { drain_acc = p.drain_acc - 1000000 } in
    let (a, b) = take-Played q in
    let (d, e) = emit-Played (take_input q) (next_input p) (
      if ltb 0 p.tx_fill
      then codec_output_sample c (next_input p) (channel_of p.pcm_produced_halfwords)
      else 0) in
    (d ∙ a, e ∙ ap (λ n. u64 (n + 1)) b)

-- The loop on enough fuel.
drain-Played :
    (fuel : ℕ) (c : I2c) (p : I2s)
    → p.drain_acc / 1000000 ≤ fuel
    → p.pcm_produced_halfwords < 2 ^ 64
    → Played
        (drain fuel c p)
        (p.drain_acc % 1000000)
        (u64 (p.pcm_produced_halfwords + p.drain_acc / 1000000))
unfolding drain
drain-Played zero c p h w = (omega arith, omega arith)
drain-Played (suc fuel) c p h w = elim (Bool-cases (leb 1000000 p.drain_acc)) [
  | inl k ↦ rw k (
      let le = leb→le 1000000 p.drain_acc k in
      let (a, b) = drain_one-Played c p in
      let (d, e) =
        drain-Played fuel c (drain_one c p) (omega (arith, a, le, h)) (omega (arith, b)) in
      (omega (arith, a, d, le), omega (arith, a, b, e, le)))
  | inr k ↦
      rw k (let lt = leb→lt 1000000 p.drain_acc k in (omega (arith, lt), omega (arith, lt, w)))
]

sync-produced :
    (c : I2c) (p : I2s) → (sync_pcm_rate c p).pcm_produced_halfwords ≡ p.pcm_produced_halfwords
unfolding sync_pcm_rate
sync-produced c p = elim (Bool-cases (p.pcm_sample_rate == 0)) [
  | inl h ↦ rw h refl
  | inr h ↦ rw h (elim (Bool-cases (p.pcm_sample_rate == sample_rate c)) [
    | inl k ↦ rw k refl
    | inr k ↦ rw k refl
  ])
]

-- With the FIFO enabled, the drain loop of a tick ends: it leaves less than a million in the
-- accumulator, the remainder of what it held when the loop began, and plays one sample for each
-- million, whether the FIFO had samples or not, as counted in 64 bits. The count before is of 64
-- bits.
pub i2s_tick-drains :
    (s : State)
    → test_bits s.i2s.config 0x20000000 ≡ true
    → s.i2s.pcm_produced_halfwords < 2 ^ 64
    → Played (i2s_tick s).i2s ((accrue s (sync_pcm_rate s.i2c s.i2s)).drain_acc % 1000000) (
        u64 (
          s.i2s.pcm_produced_halfwords
          + (accrue s (sync_pcm_rate s.i2c s.i2s)).drain_acc / 1000000))
unfolding i2s_tick i2s_update_irq
i2s_tick-drains s h w =
    let q = sync_pcm_rate s.i2c s.i2s in
    let p = accrue s q in
    let same = sync-produced s.i2c s.i2s in
    let (a, b) =
      drain-Played (p.drain_acc / 1000000) s.i2c p (omega arith) (omega (arith, same, w)) in
    rw h (a, b ∙ ap (λ n. u64 (n + p.drain_acc / 1000000)) same)
