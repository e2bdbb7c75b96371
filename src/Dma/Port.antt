-- ===== src/Dma/Port.antt =====
-- The registers of the two controllers, and the tick.
use nano1g_unicorn_c.Base.{
  ℕ, ◌+◌, ◌-◌, ◌*◌, ◌/◌, ◌%◌, Bool, ◌&&◌, ◌||◌, ltb, leb, ◌==◌, if◌then◌else◌, bit_or, store,
}
use nano1g_unicorn_c.Word.{clear_bits, test_bits}
use nano1g_unicorn_c.State.{State}
use nano1g_unicorn_c.Lcd2.{is_apple}
use nano1g_unicorn_c.Dma.Channel.{
  ch_targets_i2s, audio_ch_status, dma_irq_sync, set_reg, audio_ch_run, audio_ch_command,
}
use nano1g_unicorn_c.Dma.Lcd.{dma_try_lcd_transfer}

-- Whether an offset is the status register of one of `count` channels.
abbrev is_status : ℕ → ℕ → Bool
is_status count offset =
    leb 0x1000 offset && ltb offset (0x1000 + count * 0x20) && (offset % 0x20 == 0x04)

unfoldable pub dma_read : State → ℕ → ℕ × State
unfolding audio_ch_status ch_targets_i2s dma_irq_sync
dma_read s offset =
    let channel = (offset - 0x1000) / 0x20 in
    let reg = s.dma.regs (offset / 4) in
    let acked = dma_irq_sync (set_reg s (offset / 4) (clear_bits reg 0x40000000)) in
    if is_status 4 offset
    then (if ch_targets_i2s s.dma channel
        then (audio_ch_status s.dma channel, acked)
        else (bit_or reg 0x04000000, if is_apple s.opts.profile then acked else s))
    else (if ltb offset 0x2000 then reg else 0, s)

unfoldable pub dma_secondary_read : State → ℕ → ℕ
dma_secondary_read s offset =
    let reg = s.dma.secondary_regs (offset / 4) in
    if is_status 2 offset then bit_or reg 0x04000000 else if ltb offset 0x2000 then reg else 0

unfoldable pub dma_secondary_write : State → ℕ → ℕ → State
dma_secondary_write s offset value =
    if ltb offset 0x2000
    then record s {
      dma = record s.dma { secondary_regs = store s.dma.secondary_regs (offset / 4) value };
    }
    else s

unfoldable pub dma_write : State → ℕ → ℕ → State
unfolding audio_ch_command dma_try_lcd_transfer ch_targets_i2s
dma_write s offset value =
    let channel = (offset - 0x1000) / 0x20 in
    let audio_status = is_status 4 offset && ch_targets_i2s s.dma channel in
    let t = if audio_status then s else set_reg s (offset / 4) value in
    let commanded = audio_ch_command t channel value in
    let armed = record commanded {
      dma = record commanded.dma {
        lcd_request_armed =
            store commanded.dma.lcd_request_armed channel (test_bits value 0x01000000);
      };
    } in
    let u =
      if offset % 0x20 == 0 then (if is_apple s.opts.profile then armed else commanded) else t in
    if leb 0x2000 offset
    then s
    else if ltb offset 0x1000 || leb 0x1080 offset
    then t
    else if is_apple s.opts.profile
    then u
    else dma_try_lcd_transfer u channel

abbrev tick_one : State → ℕ → State
tick_one s channel = audio_ch_run (dma_try_lcd_transfer s channel) channel

unfoldable pub dma_tick : State → State
unfolding dma_try_lcd_transfer audio_ch_run
dma_tick s = tick_one (tick_one (tick_one (tick_one s 0) 1) 2) 3
