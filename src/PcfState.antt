-- ===== src/PcfState.antt =====
-- src/main.c: the file that keeps the power chip between runs, save_pcf_state and load_pcf_state.
-- Opening, writing and renaming files and the wall clock are arguments.
pub mod Clock
pub mod RoundTrip
mod Tests
use nano1g_unicorn_c.Base.{
  ℕ, zero, suc, ◌+◌, ◌-◌, ◌*◌, ◌/◌, ◌%◌, ◌^◌, Bool, true, false, not, ◌&&◌, ◌||◌, ltb, ◌==◌,
  if◌then◌else◌, bit_or, some, Array, store, Buffer, copy_bytes,
}
use nano1g_unicorn_c.Word.{u8, u64, shr32}
use nano1g_unicorn_c.State.{State}
use nano1g_unicorn_c.Ram.{store_le}
use nano1g_unicorn_c.I2c.Rtc.{PcfBackup, i2c_save_pcf, i2c_restore_pcf, i2c_advance_rtc}

-- put_u64le: the loop of ram.c's stores, over eight bytes.
unfoldable pub put_u64le : Array ℕ → ℕ → ℕ → Array ℕ
put_u64le dst off value = store_le dst off 8 value

-- get_u64le: rounds i = 0, 1, … up to 8, the last one outermost.
unfoldable pub get_le : Array ℕ → ℕ → ℕ → ℕ
get_le src off zero = 0
get_le src off (suc i) = bit_or (get_le src off i) (u64 (src (off + i) * 2 ^ (8 * i)))

-- N1G_PCF_STATE_SIZE, and the bytes 'N' '1' 'G' 'P' 'C' 'F' '1' 0.
abbrev pub pcf_state_size : ℕ
pcf_state_size = 89

abbrev pub magic : Array ℕ
magic i =
    if i == 0
    then b'N'
    else if i == 1
    then b'1'
    else if i == 2
    then b'G'
    else if i == 3
    then b'P'
    else if i == 4
    then b'C'
    else if i == 5
    then b'F'
    else if i == 6
    then b'1'
    else 0

-- memcmp(data, magic, sizeof(magic)) == 0.
abbrev pub has_magic : Array ℕ → Bool
has_magic p =
    (p 0 == magic 0)
    && (p 1 == magic 1)
    && (p 2 == magic 2)
    && (p 3 == magic 3)
    && (p 4 == magic 4)
    && (p 5 == magic 5)
    && (p 6 == magic 6)
    && (p 7 == magic 7)

-- What save_pcf_state writes at a time of the wall clock, into an array whose bytes it overwrites.
unfoldable pub pcf_state_bytes : State → ℕ → Array ℕ
pcf_state_bytes s now =
    let backup = i2c_save_pcf s in
    let dated = put_u64le (copy_bytes (λ _. 0) 0 magic 0 8) 8 now in
    let written = put_u64le dated 16 backup.written in
    copy_bytes (store written 24 (if backup.alarm_match_active then 1 else 0)) 25 backup.regs 0 0x40

-- How opening the file for reading ends.
pub data StateFile : Type 0 where
  no_path missing unopened : StateFile
  opened : Buffer → StateFile

-- The chip that a file holds. The array of the registers is cleared before.
unfoldable pub stored_backup : Array ℕ → PcfBackup
stored_backup data_bytes = record {
  regs = copy_bytes (λ _. 0) 0 data_bytes 25 0x40;
  written = get_le data_bytes 16 8;
  alarm_match_active = not (data_bytes 24 == 0);
  valid = true;
}

-- load_pcf_state at a time of the wall clock. A file is read whole or is too short or too long.
unfoldable pub load_pcf_state : State → StateFile → ℕ → State × Bool
unfolding stored_backup
load_pcf_state s no_path now = (s, true)
load_pcf_state s missing now = (s, true)
load_pcf_state s unopened now = (s, false)
load_pcf_state s (opened file) now =
    let saved = get_le file.bytes 8 8 in
    let elapsed = if ltb saved now then now - saved else 0 in
    if not (file.size == pcf_state_size) || not (has_magic file.bytes)
    then (s, false)
    else (i2c_advance_rtc (i2c_restore_pcf s (some (stored_backup file.bytes))) elapsed, true)
