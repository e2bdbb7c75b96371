-- ===== src/I2c/Rtc.antt =====
-- The clock of the power chip: seven fields in binary-coded decimal, and the time that has passed.
use nano1g_unicorn_c.Base.{
  ℕ, zero, suc, ◌+◌, ◌-◌, ◌*◌, ◌/◌, ◌%◌, ◌^◌, Bool, true, false, ◌&&◌, ◌||◌, ltb, leb, ◌==◌,
  if◌then◌else◌, bit_and, bit_or, Array, Option, none, some,
}
use nano1g_unicorn_c.Word.{u8, u64, shl32}
use nano1g_unicorn_c.State.{State}
use nano1g_unicorn_c.I2c.Battery.{has_written}

unfoldable pub dec2bcd : ℕ → ℕ
dec2bcd v = u8 (bit_or (shl32 (v / 10) 4) (v % 10))

unfoldable pub bcd2dec : ℕ → ℕ
bcd2dec v = v / 2 ^ 4 * 10 + bit_and v 0x0f

-- The local variables of pcf_rtc_advance_fields.
pub record Clock : Type 0 where
  pub sec : ℕ
  pub minute : ℕ
  pub hour : ℕ
  pub wday : ℕ
  pub mday : ℕ
  pub mon : ℕ
  pub year : ℕ

-- A month or a day of 0 counts as 1.
unfoldable pub from_fields : Array ℕ → Clock
from_fields fields =
    let mday = bcd2dec (fields 4) in
    let mon = bcd2dec (fields 5) in
    record {
      sec = bcd2dec (fields 0);
      minute = bcd2dec (fields 1);
      hour = bcd2dec (fields 2);
      wday = bcd2dec (fields 3);
      mday = if mday == 0 then 1 else mday;
      mon = if mon == 0 then 1 else mon;
      year = bcd2dec (fields 6);
    }

unfoldable pub to_fields : Clock → Array ℕ
to_fields c i =
    if i == 0
    then dec2bcd c.sec
    else if i == 1
    then dec2bcd c.minute
    else if i == 2
    then dec2bcd c.hour
    else if i == 3
    then dec2bcd (c.wday % 7)
    else if i == 4
    then dec2bcd c.mday
    else if i == 5
    then dec2bcd c.mon
    else dec2bcd c.year

-- days_in_month, of the month numbered from 0.
unfoldable pub days_in_month : ℕ → ℕ
days_in_month i =
    if i == 1 then 28 else if (i == 3) || (i == 5) || (i == 8) || (i == 10) then 30 else 31

-- The length of the clock's month. The month is never 0 here.
unfoldable pub month_length : Clock → ℕ
unfolding days_in_month
month_length c =
    if (c.mon == 2) && ((2000 + c.year) % 4 == 0) then 29 else days_in_month ((c.mon - 1) % 12)

-- A round of the loop over the days.
unfoldable pub next_day : Clock → Clock
unfolding month_length
next_day c =
    if ltb (month_length c) (c.mday + 1)
    then (if ltb 12 (c.mon + 1)
        then record c { mday = 1; mon = 1; year = (c.year + 1) % 100 }
        else record c { mday = 1; mon = c.mon + 1 })
    else record c { mday = c.mday + 1 }

unfoldable pub advance_days : ℕ → Clock → Clock
unfolding next_day
advance_days zero c = c
advance_days (suc n) c = next_day (advance_days n c)

-- The clock before the days are counted, and the number of them.
unfoldable pub advance_time : Clock → ℕ → Clock × ℕ
advance_time c elapsed =
    let sec = c.sec + elapsed % 60 in
    let minute = c.minute + sec / 60 + (elapsed / 60) % 60 in
    let hour = c.hour + minute / 60 + (elapsed / 3600) % 24 in
    let days = elapsed / 86400 + hour / 24 in
    (
      record c {
        sec = sec % 60;
        minute = minute % 60;
        hour = hour % 24;
        wday = (c.wday + days) % 7;
      },
      days,
    )

unfoldable pub advance_clock : Clock → ℕ → Clock
unfolding advance_time advance_days
advance_clock c elapsed = let (start, days) = advance_time c elapsed in advance_days days start

-- pcf_rtc_advance_fields. Its 64-bit sums stay far below 2 ^ 64.
unfoldable pub pcf_rtc_advance_fields : Array ℕ → ℕ → Array ℕ
unfolding from_fields to_fields advance_clock
pcf_rtc_advance_fields fields elapsed = to_fields (advance_clock (from_fields fields) elapsed)

-- default_rtc: 2026-01-01 12:00:00.
unfoldable pub default_rtc : Array ℕ
default_rtc i =
    if i == 2
    then 0x12
    else if i == 3
    then 0x04
    else if (i == 4) || (i == 5)
    then 0x01
    else if i == 6
    then 0x26
    else 0x00

-- The seconds of guest time since a tick.
unfoldable pub seconds_since : State → ℕ → ℕ
seconds_since s base =
    u64 (u64 (s.counters.device_ticks + (2 ^ 64 - base)) * s.opts.rtc_usec_per_tick) / 1000000

unfoldable pub pcf_rtc_fields : State → Array ℕ
unfolding default_rtc
pcf_rtc_fields s =
    if has_written s.i2c 0x0a
    then pcf_rtc_advance_fields (λ i. s.i2c.pcf_regs (0x0a + i))
        (seconds_since s s.i2c.rtc_base_ticks)
    else pcf_rtc_advance_fields default_rtc (seconds_since s 0)

-- The memcpy of seven fields over the registers of the date.
unfoldable pub with_fields : Array ℕ → Array ℕ → Array ℕ
with_fields regs fields j = if leb 0x0a j && leb j 0x10 then fields (j - 0x0a) else regs j

-- PCF50605_RTC_WRITTEN_MASK.
abbrev pub rtc_written_mask : ℕ
rtc_written_mask = 0x7f * 2 ^ 0x0a

-- n1g_dev_i2c_advance_rtc.
unfoldable pub i2c_advance_rtc : State → ℕ → State
unfolding pcf_rtc_fields pcf_rtc_advance_fields with_fields
i2c_advance_rtc s seconds = record s {
  i2c = record s.i2c {
    pcf_regs = with_fields s.i2c.pcf_regs (pcf_rtc_advance_fields (pcf_rtc_fields s) seconds);
    pcf_written = bit_or s.i2c.pcf_written rtc_written_mask;
    rtc_base_ticks = s.counters.device_ticks;
    rtc_last_second = 0;
    rtc_alarm_match_active = false;
  };
}

-- n1g_pcf_backup_t.
pub record PcfBackup : Type 0 where
  pub regs : Array ℕ
  pub written : ℕ
  pub alarm_match_active : Bool
  pub valid : Bool

-- n1g_dev_i2c_save_pcf.
unfoldable pub i2c_save_pcf : State → PcfBackup
unfolding pcf_rtc_fields with_fields
i2c_save_pcf s = record {
  regs = with_fields s.i2c.pcf_regs (pcf_rtc_fields s);
  written = bit_or s.i2c.pcf_written rtc_written_mask;
  alarm_match_active = s.i2c.rtc_alarm_match_active;
  valid = true;
}

-- n1g_dev_i2c_restore_pcf, of a pointer that may be NULL.
unfoldable pub i2c_restore_pcf : State → Option PcfBackup → State
i2c_restore_pcf s none = s
i2c_restore_pcf s (some backup) =
    if backup.valid
    then record s {
      i2c = record s.i2c {
        pcf_regs = backup.regs;
        pcf_written = backup.written;
        rtc_base_ticks = s.counters.device_ticks;
        rtc_last_second = 0;
        rtc_alarm_match_active = backup.alarm_match_active;
      };
    }
    else s
