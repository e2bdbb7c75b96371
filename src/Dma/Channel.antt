-- ===== src/Dma/Channel.antt =====
-- The channels' registers, and the transfers to the audio port.
use nano1g_unicorn_c.Base.{
  ℕ, zero, suc, ◌+◌, ◌-◌, ◌*◌, ◌/◌, Bool, true, false, not, ◌&&◌, ◌||◌, ltb, leb, ◌==◌,
  if◌then◌else◌, bit_and, bit_or, store, Option, none, some,
}
use nano1g_unicorn_c.Word.{u32, u64, clear_bits, test_bits}
use nano1g_unicorn_c.State.{State, Dma, DmaChannel}
use nano1g_unicorn_c.Ram.{ram_read}
use nano1g_unicorn_c.Irq.{drive_lo}
use nano1g_unicorn_c.I2s.{i2s_tx_free, i2s_push_tx}

abbrev pub i2s_base : ℕ
i2s_base = 0x70002800

abbrev pub lcd2_base : ℕ
lcd2_base = 0x70008a00

-- The place of a channel's register in the array.
abbrev pub slot : ℕ → ℕ → ℕ
slot channel reg = (0x1000 + channel * 0x20 + reg) / 4

unfoldable pub ch_reg : Dma → ℕ → ℕ → ℕ
ch_reg d channel reg = d.regs (slot channel reg)

unfoldable pub ch_targets_i2s : Dma → ℕ → Bool
ch_targets_i2s d channel =
    leb i2s_base (ch_reg d channel 0x18) && leb (ch_reg d channel 0x18) (i2s_base + 0xff)

unfoldable pub audio_ch_status : Dma → ℕ → ℕ
unfolding ch_reg
audio_ch_status d channel =
    let c = d.ch channel in
    let status = bit_and (ch_reg d channel 0x04) 0x40000000 in
    let busy = bit_or status 0x80000000 in
    if c.active
    then (if leb 4 c.bytes_left then bit_or busy (bit_and (c.bytes_left - 4) 0xffff) else busy)
    else bit_or status (bit_and (ch_reg d channel 0x00) 0xffff)

abbrev has_irq : Dma → ℕ → Bool
has_irq d channel = test_bits (ch_reg d channel 0x04) 0x40000000

unfoldable pub dma_irq_sync : State → State
dma_irq_sync s =
    let d = s.dma in
    let pending = has_irq d 0 || has_irq d 1 || has_irq d 2 || has_irq d 3 in
    record s { intc = drive_lo pending 0x04000000 s.intc }

abbrev pub set_reg : State → ℕ → ℕ → State
set_reg s i value = record s { dma = record s.dma { regs = store s.dma.regs i value } }

abbrev pub set_channel : State → ℕ → DmaChannel → State
set_channel s channel c = record s { dma = record s.dma { ch = store s.dma.ch channel c } }

-- A round of the loop of audio_ch_run with the word it read.
unfoldable pub audio_push : State → ℕ → ℕ → State
audio_push s channel word =
    let t = i2s_push_tx s 4 word in
    let c = t.dma.ch channel in
    set_channel t channel (record c {
      bytes_pushed = u64 (c.bytes_pushed + 4);
      cur_addr = u32 (c.cur_addr + 4);
      bytes_left = c.bytes_left - 4;
    })

-- What a round does with the word it reads, and whether the loop goes on. A failed read stops the
-- channel with bytes left.
unfoldable pub audio_word : State → ℕ → Option ℕ → State × Bool
unfolding audio_push
audio_word s channel none =
    (set_channel s channel (record (s.dma.ch channel) { active = false }), false)
audio_word s channel (some word) = (audio_push s channel word, true)

unfoldable pub audio_round : State → ℕ → State × Bool
unfolding audio_word
audio_round s channel =
    if ltb 0 (s.dma.ch channel).bytes_left && leb 2 (i2s_tx_free s.i2s)
    then audio_word s channel (ram_read s (s.dma.ch channel).cur_addr 4)
    else (s, false)

-- The loop, on fuel: a round that goes on takes up to four of the bytes left.
unfoldable pub audio_rounds : ℕ → State → ℕ → State
audio_rounds zero s channel = s
audio_rounds (suc fuel) s channel =
    let (t, goes_on) = audio_round s channel in
    let rest = audio_rounds fuel t channel in if goes_on then rest else t

-- The end of the transfer.
unfoldable pub audio_complete : State → ℕ → State
unfolding ch_reg dma_irq_sync
audio_complete s channel =
    let c = s.dma.ch channel in
    let t =
      set_channel s channel (record c { active = false; completions = u64 (c.completions + 1) }) in
    if not (c.bytes_left == 0)
    then s
    else if test_bits (ch_reg s.dma channel 0x00) 0x40000000
    then dma_irq_sync
        (set_reg t (slot channel 0x04) (bit_or (ch_reg s.dma channel 0x04) 0x40000000))
    else t

unfoldable pub audio_ch_run : State → ℕ → State
unfolding audio_rounds audio_complete ch_targets_i2s
audio_ch_run s channel =
    let c = s.dma.ch channel in
    if not c.active || not (ch_targets_i2s s.dma channel)
    then s
    else audio_complete (audio_rounds c.bytes_left s channel) channel

unfoldable pub audio_ch_command : State → ℕ → ℕ → State
unfolding audio_ch_run ch_targets_i2s ch_reg dma_irq_sync
audio_ch_command s channel cmd =
    let c = s.dma.ch channel in
    let started = set_channel s channel (record c {
      cur_addr = ch_reg s.dma channel 0x10;
      bytes_left = bit_and cmd 0xffff + 4;
      active = true;
      starts = u64 (c.starts + 1);
    }) in
    let stopped = set_channel s channel (record c { active = false }) in
    let status = clear_bits (ch_reg s.dma channel 0x04) 0x40000000 in
    if not (ch_targets_i2s s.dma channel)
    then s
    else if test_bits cmd 0x80000000
    then audio_ch_run started channel
    else if test_bits cmd 0x40000000
    then stopped
    else dma_irq_sync (set_reg stopped (slot channel 0x04) status)
