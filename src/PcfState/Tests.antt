-- ===== src/PcfState/Tests.antt =====
-- The file of the power chip at concrete times.
use nano1g_unicorn_c.Base.{◌+◌, ◌-◌, ◌≡◌, inl, refl, arith, true, false}
use nano1g_unicorn_c.Sample.{idle, zeros}
use nano1g_unicorn_c.Ram.{store_le}
use nano1g_unicorn_c.I2c.Rtc.{pcf_rtc_fields, pcf_rtc_advance_fields, seconds_since}
use nano1g_unicorn_c.I2c.Backup.{base_fields, base_ticks}
use nano1g_unicorn_c.I2c.Dates.{default-HoldDate}
use nano1g_unicorn_c.PcfState.{put_u64le, get_le, pcf_state_bytes, opened, missing, load_pcf_state}
use nano1g_unicorn_c.PcfState.Clock.{load_pcf-save_pcf}

load_pcf-save_pcf_example :
    ((load_pcf_state idle (opened (record { bytes = pcf_state_bytes idle 1000; size = 89 })) 4600).1
      ≡ true)
    × (pcf_rtc_fields
          (load_pcf_state idle
            (opened (record { bytes = pcf_state_bytes idle 1000; size = 89 }))
            4600).0
        ≡ pcf_rtc_advance_fields
            (base_fields idle)
            (seconds_since idle (base_ticks idle) + (4600 - 1000)))
    × ((load_pcf_state idle
            (opened (record { bytes = pcf_state_bytes idle 1000; size = 89 }))
            4600).0.i2c.pcf_regs
          3
        ≡ 0)
load_pcf-save_pcf_example =
    load_pcf-save_pcf idle idle 1000 4600 3 (omega arith) (omega arith) (omega arith)
      default-HoldDate (omega arith) (inl (omega arith))

-- A file of another kind is refused, and a missing one is none.
refused : (load_pcf_state idle (opened (record { bytes = zeros; size = 89 })) 0).1 ≡ false
unfolding load_pcf_state
refused = refl

first_run : (load_pcf_state idle missing 0).1 ≡ true
unfolding load_pcf_state
first_run = refl

eight_bytes : get_le (put_u64le zeros 3 0x0102030405060708) 3 8 ≡ 0x0102030405060708
unfolding get_le put_u64le store_le
eight_bytes = refl
