-- ===== src/Dma/Tests.antt =====
-- The channels at concrete states.
use nano1g_unicorn_c.Base.{◌≡◌, true, refl}
use nano1g_unicorn_c.State.{State}
use nano1g_unicorn_c.Sample.{idle, idle_channel}
use nano1g_unicorn_c.Dma.Channel.{ch_targets_i2s, ch_reg, audio_ch_run, i2s_base}
use nano1g_unicorn_c.Dma.Audio.{Waits, audio_ch_run-Waits}

-- A channel that feeds the audio port from SDRAM.
abbrev feeding : State
feeding = record idle {
  dma = record idle.dma {
    regs = λ _. i2s_base;
    ch = λ _. record idle_channel { cur_addr = 0x10000000; bytes_left = 8; active = true };
  };
}

feeding_targets : ch_targets_i2s feeding.dma 0 ≡ true
unfolding ch_targets_i2s ch_reg
feeding_targets = refl

audio_ch_run-Waits_example : Waits (audio_ch_run feeding 0) 0
audio_ch_run-Waits_example = audio_ch_run-Waits feeding 0 feeding_targets
