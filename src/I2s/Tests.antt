-- ===== src/I2s/Tests.antt =====
-- The audio port at concrete states.
use nano1g_unicorn_c.Base.{◌+◌, ◌/◌, ◌%◌, ◌≡◌, true, refl, arith, cpu}
use nano1g_unicorn_c.Word.{u64}
use nano1g_unicorn_c.State.{State, I2c}
use nano1g_unicorn_c.Sample.{idle, idle_i2c}
use nano1g_unicorn_c.I2s.{i2s_tick, accrue, sync_pcm_rate, codec_output_sample}
use nano1g_unicorn_c.I2s.Drain.{Played, i2s_tick-drains}

abbrev playing : State
playing = record idle { i2s = record idle.i2s { config = 0x20000000 } }

i2s_tick-drains_example :
    Played
      (i2s_tick playing).i2s
      ((accrue playing (sync_pcm_rate playing.i2c playing.i2s)).drain_acc % 1000000)
      (u64 (0 + (accrue playing (sync_pcm_rate playing.i2c playing.i2s)).drain_acc / 1000000))
i2s_tick-drains_example = i2s_tick-drains playing refl (omega arith)

-- A codec at full volume, and the sample -32768 at twice the level.
abbrev loud : I2c
loud = record idle_i2c {
  wm8975_output_enabled = true;
  wm8975_gain_q15 = record { at0 = 65536; at1 = 65536 };
}

sample_clips : codec_output_sample loud 32768 cpu ≡ 32768
unfolding codec_output_sample
sample_clips = refl
