-- ===== src/I2c/Tests.antt =====
-- The clock of the power chip and the codec at concrete values.
use nano1g_unicorn_c.Base.{◌+◌, ◌≡◌, refl}
use nano1g_unicorn_c.Sample.{idle}
use nano1g_unicorn_c.I2c.Codec.{wm8975_volume_q15, softer, louder}
use nano1g_unicorn_c.I2c.Battery.{battery_percent_to_mv, table_mv}
use nano1g_unicorn_c.I2c.Rtc.{
  default_rtc, from_fields, bcd2dec, dec2bcd, month_length, days_in_month, pcf_rtc_advance_fields,
  pcf_rtc_fields, seconds_since, advance_clock, advance_time, advance_days, next_day, to_fields,
}
use nano1g_unicorn_c.I2c.Dates.{
  HoldDate, default-HoldDate, advance_fields-IsDate, advance_fields-add,
}
use nano1g_unicorn_c.I2c.Backup.{base_fields, base_ticks, restored_at, restore_pcf-save_pcf}

advance_fields-IsDate_example : HoldDate (pcf_rtc_advance_fields default_rtc 5097600)
advance_fields-IsDate_example = advance_fields-IsDate default_rtc 5097600 default-HoldDate

advance_fields-add_example :
    pcf_rtc_advance_fields (pcf_rtc_advance_fields default_rtc 43199) 1
    ≡ pcf_rtc_advance_fields default_rtc (43199 + 1)
advance_fields-add_example = advance_fields-add default_rtc 43199 1 default-HoldDate

-- Twelve hours after noon it is the second day of the month.
next_midnight : pcf_rtc_advance_fields default_rtc 43200 4 ≡ 0x02
unfolding pcf_rtc_advance_fields default_rtc from_fields bcd2dec to_fields dec2bcd advance_clock
    advance_time advance_days next_day month_length days_in_month
next_midnight = refl

restore_pcf-save_pcf_example :
    pcf_rtc_fields (restored_at idle idle 3000000)
    ≡ pcf_rtc_advance_fields
        (base_fields idle)
        (seconds_since idle (base_ticks idle) + seconds_since (restored_at idle idle 3000000) 0)
restore_pcf-save_pcf_example = restore_pcf-save_pcf idle idle 3000000 default-HoldDate

zero_decibel : wm8975_volume_q15 0x79 ≡ 32768
unfolding wm8975_volume_q15 softer louder
zero_decibel = refl

half_battery : battery_percent_to_mv 55 ≡ 3805
unfolding battery_percent_to_mv table_mv
half_battery = refl
