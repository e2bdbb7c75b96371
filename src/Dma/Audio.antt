-- ===== src/Dma/Audio.antt =====
-- The audio channels: their loop ends, with the transfer complete, the FIFO full or the channel stopped.
use nano1g_unicorn_c.Base.{
  ℕ, zero, suc, ◌+◌, ◌-◌, ◌≤◌, ◌<◌, ◌≡◌, ◌⊎◌, Bool, true, false, ltb, leb, ◌==◌, Option, none, some,
  store_self, Bool-cases, inl, inr, refl, arith, ap, ltb→lt, ltb→le, leb→lt,
}
use nano1g_unicorn_c.Word.{u32, u64, test_bits}
use nano1g_unicorn_c.State.{State}
use nano1g_unicorn_c.Ram.{ram_read}
use nano1g_unicorn_c.I2s.{i2s_tx_free, i2s_push_tx, i2s_update_irq}
use nano1g_unicorn_c.Dma.Channel.{
  ch_reg, ch_targets_i2s, dma_irq_sync, audio_push, audio_word, audio_round, audio_rounds,
  audio_complete, audio_ch_run,
}

-- The three ways in which the loop ends.
abbrev HasEnded : State → ℕ → Type 0
HasEnded s channel =
    ((s.dma.ch channel).bytes_left ≡ 0)
    ⊎ (i2s_tx_free s.i2s < 2)
    ⊎ ((s.dma.ch channel).active ≡ false)

-- A round that goes on has taken bytes; one that does not has ended.
abbrev RoundResult : State → ℕ → State → Bool → Type 0
RoundResult s channel t goes_on =
    ((goes_on ≡ true) × ((t.dma.ch channel).bytes_left < (s.dma.ch channel).bytes_left))
    ⊎ ((goes_on ≡ false) × HasEnded t channel)

word-RoundResult :
    (s : State) (channel : ℕ) (o : Option ℕ)
    → 0 < (s.dma.ch channel).bytes_left
    → RoundResult s channel (audio_word s channel o).0 (audio_word s channel o).1
unfolding audio_word audio_push i2s_push_tx i2s_update_irq
word-RoundResult s channel none pos = inr (
  refl,
  inr (
      inr (
        ap (λ c. c.active)
          (store_self s.dma.ch channel (record (s.dma.ch channel) { active = false })))),
)
word-RoundResult s channel (some word) pos =
    let c = s.dma.ch channel in
    let kept = store_self s.dma.ch channel (record c {
      bytes_pushed = u64 (c.bytes_pushed + 4);
      cur_addr = u32 (c.cur_addr + 4);
      bytes_left = c.bytes_left - 4;
    }) in
    inl (refl, omega (arith, pos, ap (λ d. d.bytes_left) kept))

round-RoundResult :
    (s : State) (channel : ℕ)
    → RoundResult s channel (audio_round s channel).0 (audio_round s channel).1
unfolding audio_round
round-RoundResult s channel =
    let some_left = ltb 0 (s.dma.ch channel).bytes_left in
    let has_room = leb 2 (i2s_tx_free s.i2s) in
    elim (Bool-cases some_left) [
      | inl h ↦ elim (Bool-cases has_room) [
        | inl k ↦
            rw (h, k)
              (word-RoundResult s channel (ram_read s (s.dma.ch channel).cur_addr 4)
                (ltb→lt 0 (s.dma.ch channel).bytes_left h))
        | inr k ↦ rw (h, k) (inr (refl, inr (inl (leb→lt 2 (i2s_tx_free s.i2s) k))))
      ]
      | inr h ↦ rw h (inr (refl, inl (omega (arith, ltb→le 0 (s.dma.ch channel).bytes_left h))))
    ]

-- The loop, on as much fuel as there are bytes left.
rounds-HasEnded :
    (fuel : ℕ) (s : State) (channel : ℕ)
    → (s.dma.ch channel).bytes_left ≤ fuel
    → HasEnded (audio_rounds fuel s channel) channel
unfolding audio_rounds
rounds-HasEnded zero s channel le = inl (omega arith)
rounds-HasEnded (suc fuel) s channel le = elim (round-RoundResult s channel) [
  | inl (go, less) ↦
      rw go (rounds-HasEnded fuel (audio_round s channel).0 channel (omega (arith, less, le)))
  | inr (go, ended) ↦ rw go ended
]

-- The channel waits for room or is done.
abbrev pub Waits : State → ℕ → Type 0
Waits s channel = ((s.dma.ch channel).active ≡ false) ⊎ (i2s_tx_free s.i2s < 2)

complete-Waits :
    (s : State) (channel : ℕ) → HasEnded s channel → Waits (audio_complete s channel) channel
unfolding audio_complete dma_irq_sync
complete-Waits s channel e =
    let c = s.dma.ch channel in
    let stopped =
      ap (λ d. d.active)
        (store_self s.dma.ch channel
          (record c { active = false; completions = u64 (c.completions + 1) })) in
    elim (Bool-cases (c.bytes_left == 0)) [
      | inl h ↦ elim (Bool-cases (test_bits (ch_reg s.dma channel 0x00) 0x40000000)) [
        | inl k ↦ rw (h, k) (inl stopped)
        | inr k ↦ rw (h, k) (inl stopped)
      ]
      | inr h ↦ rw h (elim e [
        | inl zero_left ↦ absurd (ground (arith, zero_left, h))
        | inr (inl full) ↦ inr full
        | inr (inr off) ↦ inl off
      ])
    ]

-- A run of a channel that feeds the audio port ends in every state: afterwards the channel is no
-- longer active, its transfer being complete or its memory unreadable, or the FIFO has no room for
-- another word. So a channel never leaves room that it could fill.
pub audio_ch_run-Waits :
    (s : State) (channel : ℕ)
    → ch_targets_i2s s.dma channel ≡ true
    → Waits (audio_ch_run s channel) channel
unfolding audio_ch_run
audio_ch_run-Waits s channel t = elim (Bool-cases (s.dma.ch channel).active) [
  | inl h ↦
      rw (h, t)
        (complete-Waits (audio_rounds (s.dma.ch channel).bytes_left s channel) channel
          (rounds-HasEnded (s.dma.ch channel).bytes_left s channel (omega arith)))
  | inr h ↦ rw h (inl h)
]
