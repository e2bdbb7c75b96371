-- ===== src/I2s.antt =====
-- src/dev_i2s.c: the transmit FIFO of the audio port, which a tick drains at the sample rate.
pub mod Drain
mod Tests
use nano1g_unicorn_c.Base.{
  ℕ, zero, suc, ◌+◌, ◌-◌, ◌*◌, ◌/◌, ◌%◌, ◌^◌, Bool, true, false, not, ◌&&◌, ◌||◌, ltb, leb, ◌==◌,
  if◌then◌else◌, bit_and, bit_or, store, Core, cpu, cop, get,
}
use nano1g_unicorn_c.Word.{u64, u32, clear_bits, test_bits, align4}
use nano1g_unicorn_c.State.{State, I2s, I2c}
use nano1g_unicorn_c.Irq.{drive_lo}

abbrev pub tx_depth : ℕ
tx_depth = 32

abbrev pub ring_halfwords : ℕ
ring_halfwords = 32768

unfoldable pub i2s_tx_free : I2s → ℕ
i2s_tx_free p = u32 (tx_depth + 2 ^ 32 - p.tx_fill)

unfoldable pub sample_rate : I2c → ℕ
sample_rate c = if c.wm8975_sample_rate == 0 then 44100 else c.wm8975_sample_rate

-- The channels alternate: cpu stands for the left one, cop for the right one.
unfoldable pub channel_of : ℕ → Core
channel_of halfwords = if bit_and halfwords 1 == 0 then cpu else cop

-- A sample is the bit pattern of an int16_t; a gain is never negative. The shift rounds down, so the
-- magnitude of a negative sample is rounded up.
unfoldable pub codec_output_sample : I2c → ℕ → Core → ℕ
codec_output_sample c sample channel =
    let gain = get c.wm8975_gain_q15 channel in
    let up = sample * gain / 2 ^ 15 in
    let down = ((65536 - sample) * gain + 32767) / 2 ^ 15 in
    if not c.wm8975_output_enabled
    then 0
    else if ltb sample 32768
    then (if ltb 32767 up then 32767 else up)
    else (65536 - (if ltb 32768 down then 32768 else down)) % 65536

-- The absolute value of a sample.
unfoldable pub magnitude : ℕ → ℕ
magnitude sample = if ltb sample 32768 then sample else 65536 - sample

unfoldable pub clear_tx_fifo : I2s → Bool → I2s
clear_tx_fifo p reset_clock =
    let emptied = record p { tx_fill = 0; tx_head = 0; tx_tail = 0 } in
    if reset_clock then record emptied { drain_acc = 0; underrun_active = false } else emptied

unfoldable pub clear_pcm_ring : I2c → I2s → I2s
unfolding sample_rate
clear_pcm_ring c p = record p {
  pcm_ring = λ _. 0;
  pcm_produced_halfwords = 0;
  pcm_stream_start_halfword = 0;
  pcm_nonzero_halfwords = 0;
  pcm_silenced_halfwords = 0;
  underruns = 0;
  underrun_halfwords = 0;
  host_dropped_halfwords = 0;
  pcm_peak = 0;
  pcm_sample_rate = sample_rate c;
  pcm_stream_id = u32 (p.pcm_stream_id + 1);
}

unfoldable pub sync_pcm_rate : I2c → I2s → I2s
unfolding sample_rate
sync_pcm_rate c p =
    let rate = sample_rate c in
    if p.pcm_sample_rate == 0
    then record p { pcm_sample_rate = rate }
    else if p.pcm_sample_rate == rate
    then p
    else record p {
      pcm_sample_rate = rate;
      pcm_stream_start_halfword = bit_and (u64 (p.pcm_produced_halfwords + 1)) 0xfffffffffffffffe;
      pcm_stream_id = u32 (p.pcm_stream_id + 1);
      drain_acc = 0;
      underrun_active = false;
    }

unfoldable pub i2s_update_irq : State → State
unfolding i2s_tx_free
i2s_update_irq s =
    let p = s.i2s in
    let assert_tx =
      test_bits p.config 0x02 && test_bits p.config 0x20000000 && leb 2 (i2s_tx_free p) in
    record s { intc = drive_lo assert_tx 0x400 s.intc }

unfoldable pub i2s_read : State → ℕ → ℕ
unfolding i2s_tx_free
i2s_read s offset =
    let reg = align4 offset in
    let free = i2s_tx_free s.i2s in
    let shown = if ltb 0x3f free then 0x3f else free in
    if reg == 0x00
    then s.i2s.config
    else if reg == 0x08
    then s.i2s.clk
    else if reg == 0x0c
    then bit_or (bit_and s.i2s.fifo_cfg 0xff) (shown * 2 ^ 16)
    else 0

-- The halfword of a round, and the rounds of n1g_dev_i2s_push_tx.
unfoldable pub push_halfword : I2s → ℕ → I2s
push_halfword p sample =
    if ltb p.tx_fill tx_depth
    then record p {
      tx_fifo = store p.tx_fifo p.tx_tail sample;
      tx_tail = u32 (p.tx_tail + 1) % tx_depth;
      tx_fill = p.tx_fill + 1;
      tx_halfwords = u64 (p.tx_halfwords + 1);
    }
    else record p { tx_overruns = u64 (p.tx_overruns + 1) }

unfoldable pub i2s_push_tx : State → ℕ → ℕ → State
unfolding push_halfword i2s_update_irq
i2s_push_tx s size value =
    let first = push_halfword s.i2s (bit_and value 0xffff) in
    let both = if size == 4 then push_halfword first (bit_and (value / 2 ^ 16) 0xffff) else first in
    i2s_update_irq (record s { i2s = both })

-- The write of the configuration.
unfoldable pub configure : I2c → I2s → ℕ → I2s
unfolding clear_tx_fifo clear_pcm_ring
configure c p value =
    let fresh = record (clear_pcm_ring c (clear_tx_fifo p true)) {
      tx_halfwords = 0;
      tx_drained_halfwords = 0;
      tx_overruns = 0;
    } in
    let start = if test_bits value 0x80000000 then fresh else p in
    let config = clear_bits value 0x80000000 in
    let written = record start { config = config } in
    if test_bits p.config 0x20000000 && not (test_bits config 0x20000000)
    then record written { drain_acc = 0; underrun_active = false }
    else written

unfoldable pub i2s_write : State → ℕ → ℕ → ℕ → State
unfolding configure i2s_update_irq i2s_push_tx clear_tx_fifo
i2s_write s offset size value =
    let reg = align4 offset in
    let cleared = if test_bits value 0x100 then clear_tx_fifo s.i2s false else s.i2s in
    if reg == 0x00
    then i2s_update_irq (record s { i2s = configure s.i2c s.i2s value })
    else if reg == 0x08
    then record s { i2s = record s.i2s { clk = value } }
    else if reg == 0x0c
    then i2s_update_irq
        (record s { i2s = record cleared { fifo_cfg = bit_and (clear_bits value 0x1100) 0xff } })
    else if reg == 0x40
    then i2s_push_tx s size value
    else s

-- The sample that a round takes, 0 from an empty FIFO.
unfoldable pub next_input : I2s → ℕ
next_input p = if ltb 0 p.tx_fill then p.tx_fifo p.tx_head else 0

unfoldable pub take_input : I2s → I2s
take_input p =
    if ltb 0 p.tx_fill
    then record p {
      tx_head = u32 (p.tx_head + 1) % tx_depth;
      tx_fill = p.tx_fill - 1;
      tx_drained_halfwords = u64 (p.tx_drained_halfwords + 1);
      underrun_active = false;
    }
    else record p {
      underruns = if p.underrun_active then p.underruns else u64 (p.underruns + 1);
      underrun_active = true;
      underrun_halfwords = u64 (p.underrun_halfwords + 1);
    }

unfoldable pub emit : I2s → ℕ → ℕ → I2s
unfolding magnitude
emit p input output =
    let played = record p {
      pcm_ring = store p.pcm_ring (p.pcm_produced_halfwords % ring_halfwords) output;
      pcm_produced_halfwords = u64 (p.pcm_produced_halfwords + 1);
    } in
    if not (output == 0)
    then record played {
      pcm_nonzero_halfwords = u64 (p.pcm_nonzero_halfwords + 1);
      pcm_peak = if ltb p.pcm_peak (magnitude output) then magnitude output else p.pcm_peak;
    }
    else if not (input == 0)
    then record played { pcm_silenced_halfwords = u64 (p.pcm_silenced_halfwords + 1) }
    else played

-- The body of the drain loop.
unfoldable pub drain_one : I2c → I2s → I2s
unfolding next_input take_input emit codec_output_sample channel_of
drain_one c p =
    let input = next_input p in
    let output =
      if ltb 0 p.tx_fill
      then codec_output_sample c input (channel_of p.pcm_produced_halfwords)
      else 0 in
    emit (take_input (record p { drain_acc = p.drain_acc - 1000000 })) input output

-- The loop, on fuel: a round takes a million from the accumulator.
unfoldable pub drain : ℕ → I2c → I2s → I2s
unfolding drain_one
drain zero c p = p
drain (suc fuel) c p =
    let rest = drain fuel c (drain_one c p) in if leb 1000000 p.drain_acc then rest else p

-- The accumulator as the tick makes it; u64 is the width of the sum and of the product.
unfoldable pub accrue : State → I2s → I2s
accrue s p = record p {
  drain_acc = u64 (p.drain_acc + u64 (s.opts.rtc_usec_per_tick * p.pcm_sample_rate * 2));
}

unfoldable pub i2s_tick : State → State
unfolding sync_pcm_rate accrue drain i2s_update_irq
i2s_tick s =
    let p = accrue s (sync_pcm_rate s.i2c s.i2s) in
    if not (test_bits s.i2s.config 0x20000000)
    then record s { i2s = record s.i2s { drain_acc = 0; underrun_active = false } }
    else i2s_update_irq (record s { i2s = drain (p.drain_acc / 1000000) s.i2c p })
