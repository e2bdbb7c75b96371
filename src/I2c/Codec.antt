-- ===== src/I2c/Codec.antt =====
-- The codec: its volume, its sample rate and its route, from the registers written so far.
use nano1g_unicorn_c.Base.{
  ℕ, zero, suc, ◌+◌, ◌-◌, ◌*◌, ◌/◌, ◌^◌, Bool, not, ◌&&◌, ltb, leb, ◌==◌, if◌then◌else◌, bit_and,
  bit_or, store,
}
use nano1g_unicorn_c.Word.{u8, u64, test_bits}
use nano1g_unicorn_c.State.{I2c}

-- The two loops of wm8975_volume_q15, a round for each decibel.
unfoldable pub softer : ℕ → ℕ → ℕ
softer zero gain = gain
softer (suc n) gain = softer n ((gain * 29205 + 16384) / 2 ^ 15)

unfoldable pub louder : ℕ → ℕ → ℕ
louder zero gain = gain
louder (suc n) gain = louder n ((gain * 36766 + 16384) / 2 ^ 15)

-- The gain with 15 binary places; 0x79 is 0 dB.
unfoldable pub wm8975_volume_q15 : ℕ → ℕ
unfolding softer louder
wm8975_volume_q15 value =
    let level = bit_and value 0x7f in
    if ltb level 0x30
    then 0
    else if ltb level 0x79
    then softer (0x79 - level) 32768
    else louder (level - 0x79) 32768

unfoldable pub wm8975_sample_rate : ℕ → Bool → ℕ
wm8975_sample_rate value legacy =
    let setting = u8 value in
    if legacy && (setting == 0x23)
    then 44100
    else if setting == 0x4d
    then 8000
    else if setting == 0x61
    then 12000
    else if setting == 0x55
    then 16000
    else if setting == 0x77
    then 22050
    else if setting == 0x79
    then 24000
    else if setting == 0x59
    then 32000
    else if setting == 0x63
    then 44100
    else if setting == 0x41
    then 48000
    else if setting == 0x7f
    then 88200
    else if setting == 0x5d
    then 96000
    else 44100

-- Whether the output plays, in the two ways that drivers program the codec.
unfoldable pub legacy_enabled : I2c → Bool
legacy_enabled c =
    test_bits (c.wm8975_regs 0x09) 1
    && (bit_and (c.wm8975_regs 0x06) 0x98 == 0)
    && test_bits (c.wm8975_regs 0x04) 0x10
    && not (test_bits (c.wm8975_regs 0x05) 0x08)

unfoldable pub mixer_enabled : I2c → Bool
mixer_enabled c =
    let power = c.wm8975_regs 0x1a in
    (bit_and power 0x180 == 0x180)
    && (bit_and power 0x60 == 0x60)
    && (test_bits (c.wm8975_regs 0x22) 0x100 && test_bits (c.wm8975_regs 0x25) 0x100)
    && not (test_bits (c.wm8975_regs 0x05) 0x08)

unfoldable pub wm8975_refresh : I2c → I2c
unfolding wm8975_volume_q15 wm8975_sample_rate legacy_enabled mixer_enabled
wm8975_refresh c =
    let legacy = test_bits c.wm8975_written (2 ^ 9) in
    let left = c.wm8975_regs 0x02 in
    let right =
      if not (test_bits c.wm8975_written (2 ^ 3)) && test_bits left 0x100
      then left
      else c.wm8975_regs 0x03 in
    record c {
      wm8975_legacy_mode = legacy;
      wm8975_gain_q15 = record { at0 = wm8975_volume_q15 left; at1 = wm8975_volume_q15 right };
      wm8975_sample_rate = wm8975_sample_rate (c.wm8975_regs 0x08) legacy;
      wm8975_output_enabled = if legacy then legacy_enabled c else mixer_enabled c;
    }

-- A write to the codec: seven bits of the register's number, nine of its value.
unfoldable pub wm8975_write : I2c → ℕ → I2c
unfolding wm8975_refresh
wm8975_write c count =
    let reg = c.bytes 0 / 2 in
    let value = bit_or (bit_and (c.bytes 0) 1 * 2 ^ 8) (c.bytes 1) in
    if ltb count 2
    then c
    else if leb 0x2b reg
    then c
    else if reg == 0x0f
    then wm8975_refresh (record c {
      wm8975_regs = λ _. 0;
      wm8975_written = 0;
      wm8975_resets = u64 (c.wm8975_resets + 1);
    })
    else wm8975_refresh (record c {
      wm8975_regs = store c.wm8975_regs reg value;
      wm8975_written = bit_or c.wm8975_written (2 ^ reg);
    })
