-- ===== src/State.antt =====
-- The machine's state, include/nano1g/state.h: one record for each device, and n1g_state over them.
-- An unsigned field is a number, an array a function from its index. Left out are the host's own
-- handles and the fields of the devices that are not modelled.
use nano1g_unicorn_c.Base.{ℕ, Bool, Duo, Array, Option}

-- n1g_profile_t.
pub data Profile : Type 0 where
  rockbox apple : Profile

-- n1g_low0_map_t: what the addresses from 0 show.
pub data LowMap : Type 0 where
  low_none low_ram low_flash : LowMap

-- n1g_boot_mode_t.
pub data BootMode : Type 0 where
  boot_direct boot_flash : BootMode

-- The options that the modelled parts read; of the path of the input script whether it is given.
pub record Opts : Type 0 where
  pub hold_switch_engaged : Bool
  pub main_charger_connected : Bool
  pub usb_charger_connected : Bool
  pub battery_percent : ℕ
  pub profile : Profile
  pub boot_mode : BootMode
  pub slice_insns : ℕ
  pub timer_divider : ℕ
  pub rtc_usec_per_tick : ℕ
  pub load_addr : ℕ
  pub entry : ℕ
  pub entry_set : Bool
  pub firmware_from_disk : Bool
  pub map_flash_zero : Bool
  pub virtual_memmap : Bool
  pub run_forever : Bool
  pub idle_fast_forward : Bool
  pub has_input_script : Bool

-- n1g_cpu_t without the engine's handle.
pub record Cpu : Type 0 where
  pub running : Bool
  pub halted : Bool
  pub guest_insns : ℕ

-- The two memories, byte by byte.
pub record Ram : Type 0 where
  pub sdram : Array ℕ
  pub fastram : Array ℕ

pub record Intc : Type 0 where
  pub cpu_status : ℕ
  pub cop_status : ℕ
  pub cpu_enable : ℕ
  pub cop_enable : ℕ
  pub cpu_priority : ℕ
  pub cop_priority : ℕ
  pub forced_status : ℕ
  pub hi_cpu_status : ℕ
  pub hi_cop_status : ℕ
  pub hi_cpu_enable : ℕ
  pub hi_cop_enable : ℕ
  pub hi_cpu_priority : ℕ
  pub hi_cop_priority : ℕ
  pub hi_forced_status : ℕ

pub record Mailbox : Type 0 where
  pub shared_bits : ℕ
  pub queue : Duo ℕ

pub record Timer : Type 0 where
  pub cfg : Duo ℕ
  pub val : Duo ℕ
  pub usec : ℕ
  pub cfg_tick_phase : ℕ

pub record Cpucon : Type 0 where
  pub ctl : Duo ℕ
  pub wait_ticks : Duo ℕ

-- n1g_i2s_t; a sample is the bit pattern of its int16_t.
pub record I2s : Type 0 where
  pub config : ℕ
  pub clk : ℕ
  pub fifo_cfg : ℕ
  pub tx_fill : ℕ
  pub tx_head : ℕ
  pub tx_tail : ℕ
  pub tx_fifo : Array ℕ
  pub drain_acc : ℕ
  pub underrun_active : Bool
  pub tx_halfwords : ℕ
  pub tx_drained_halfwords : ℕ
  pub tx_overruns : ℕ
  pub pcm_ring : Array ℕ
  pub pcm_produced_halfwords : ℕ
  pub pcm_stream_start_halfword : ℕ
  pub pcm_nonzero_halfwords : ℕ
  pub pcm_silenced_halfwords : ℕ
  pub underruns : ℕ
  pub underrun_halfwords : ℕ
  pub host_dropped_halfwords : ℕ
  pub pcm_peak : ℕ
  pub pcm_sample_rate : ℕ
  pub pcm_stream_id : ℕ

-- n1g_serial_channel_t.
pub record SerialChannel : Type 0 where
  pub ier : ℕ
  pub fcr : ℕ
  pub lcr : ℕ
  pub mcr : ℕ
  pub lsr : ℕ
  pub msr : ℕ
  pub spr : ℕ
  pub dll : ℕ
  pub dlm : ℕ
  pub extended : Array ℕ
  pub thre_irq_pending : Bool
  pub tx_bytes : ℕ

-- n1g_opto_t without the text of the last input, which only the front end shows.
pub record Opto : Type 0 where
  pub regs : Array ℕ
  pub queue : Array ℕ
  pub button_bits : ℕ
  pub pending_release_bits : ℕ
  pub pending_release_tick : ℕ
  pub queue_head : ℕ
  pub queue_len : ℕ
  pub wheel_pos : ℕ
  pub input_events : ℕ
  pub suppressed_events : ℕ

-- n1g_flash_t: FLASH_MODE_*, and the array of N1G_FLASH_SIZE bytes behind the chip's window.
pub data FlashMode : Type 0 where
  mode_array mode_id mode_status mode_cfi : FlashMode

pub record Flash : Type 0 where
  pub bytes : Array ℕ
  pub saved_window : Array ℕ
  pub mode : FlashMode
  pub status : ℕ
  pub saved_window_valid : Bool
  pub program_pending : Bool
  pub erase_pending : Bool

-- n1g_ata_transfer_t.
pub data Transfer : Type 0 where
  transfer_none transfer_identify transfer_read transfer_write : Transfer
  transfer_dma_read transfer_dma_write : Transfer

-- n1g_disk_t; `image` is the `data` pointer, `none` for NULL.
pub record Disk : Type 0 where
  pub image : Option (Array ℕ)
  pub size : ℕ
  pub selected_lba : ℕ
  pub transfer_lba : ℕ
  pub sectors_remaining : ℕ
  pub sector_count : ℕ
  pub device : ℕ
  pub command : ℕ
  pub error : ℕ
  pub status : ℕ
  pub ide0_cfg : ℕ
  pub ide1_cfg : ℕ
  pub irq_pending : Bool
  pub device_control : ℕ
  pub dma_control : ℕ
  pub dma_status : ℕ
  pub dma_length : ℕ
  pub dma_addr : ℕ
  pub dma_unknown : ℕ
  pub dma_pending : Bool
  pub pio_data_pending : Bool
  pub pio_ready_irq : Bool
  pub pio_completion_pending : Bool
  pub nondata_pending : Bool
  pub soft_reset_asserted : Bool
  pub soft_reset_pending : Bool
  pub pending_multiple_update : Bool
  pub pending_error : ℕ
  pub pending_feature : ℕ
  pub pending_multiple_count : ℕ
  pub multiple_count : ℕ
  pub transfer_kind : Transfer
  pub data_index : ℕ
  pub identify : Array ℕ

-- n1g_pcf_wake_reason_t.
pub data WakeReason : Type 0 where
  wake_none wake_rtc_alarm wake_charger wake_onkey : WakeReason

-- n1g_i2c_t: the controller, the codec WM8975 and the power chip PCF50605 behind it.
pub record I2c : Type 0 where
  pub regs : Array ℕ
  pub addr_reads : Array ℕ
  pub addr_writes : Array ℕ
  pub transactions : ℕ
  pub wm8975_regs : Array ℕ
  pub wm8975_written : ℕ
  pub wm8975_resets : ℕ
  pub wm8975_sample_rate : ℕ
  pub wm8975_gain_q15 : Duo ℕ
  pub wm8975_output_enabled : Bool
  pub wm8975_legacy_mode : Bool
  pub bytes : Array ℕ
  pub control : ℕ
  pub addr_op : ℕ
  pub busy_reads : ℕ
  pub last_addr : ℕ
  pub last_count : ℕ
  pub last_read : Bool
  pub last_data : ℕ
  pub pcf_reg : ℕ
  pub pcf_regs : Array ℕ
  pub pcf_written : ℕ
  pub pcf_reg_reads : Array ℕ
  pub pcf_reg_writes : Array ℕ
  pub pcf_standby_requests : ℕ
  pub pcf_standby_transitions : ℕ
  pub pcf_wake_requests : ℕ
  pub pcf_standby_deadline : ℕ
  pub pcf_adc_deadline : ℕ
  pub pcf_adc_conversions : ℕ
  pub pcf_low_battery_deadline : ℕ
  pub pcf_low_battery_standby_deadline : ℕ
  pub pcf_low_battery_events : ℕ
  pub rtc_base_ticks : ℕ
  pub rtc_last_second : ℕ
  pub rtc_second_interrupts : ℕ
  pub rtc_alarm_interrupts : ℕ
  pub pcf_adc_result1 : ℕ
  pub pcf_adc_result2 : ℕ
  pub pcf_last_wake : WakeReason
  pub pcf_adc_ready : Bool
  pub pcf_low_battery : Bool
  pub pcf_standby : Bool
  pub rtc_alarm_match_active : Bool
  pub pcf_reg_set : Bool

-- n1g_backlight_t.
pub record Backlight : Type 0 where
  pub pwm_regs : Array ℕ
  pub dimmer_regs : Array ℕ
  pub generation : ℕ
  pub dimmer_pulses : ℕ
  pub dimmer_up_pulses : ℕ
  pub dimmer_down_pulses : ℕ
  pub clicker_writes : ℕ
  pub clicker_starts : ℕ
  pub clicker_stops : ℕ
  pub clicker_start_tick : ℕ
  pub clicker_last_duration_ticks : ℕ
  pub clicker_period : ℕ
  pub clicker_duty : ℕ
  pub nano_level : ℕ
  pub dimmer_busy_reads : ℕ
  pub clicker_enabled : Bool
  pub pwm_seen : Bool
  pub dimmer_seen : Bool
  pub nano_power_seen : Bool
  pub nano_powered : Bool

-- n1g_lcd2_t.
pub record Lcd2 : Type 0 where
  pub regs : Array ℕ
  pub pixels : Array ℕ
  pub cursor : ℕ
  pub block_ctrl : ℕ
  pub block_config : ℕ
  pub block_pixels_remaining : ℕ
  pub command : ℕ
  pub window_x0 : ℕ
  pub window_y0 : ℕ
  pub window_x1 : ℕ
  pub window_y1 : ℕ
  pub cursor_x : ℕ
  pub cursor_y : ℕ
  pub pending_data_hi : ℕ
  pub pending_command : Bool
  pub pending_data : Bool
  pub words : ℕ
  pub gram_pixels : ℕ
  pub block_pixels : ℕ
  pub block_starts : ℕ
  pub block_overrun_words : ℕ
  pub cursor_sets : ℕ
  pub window_sets : ℕ
  pub last_block_cursor_x : ℕ
  pub last_block_cursor_y : ℕ
  pub dirty : Bool

-- An element of `ch` in n1g_dma_t.
pub record DmaChannel : Type 0 where
  pub cur_addr : ℕ
  pub bytes_left : ℕ
  pub active : Bool
  pub starts : ℕ
  pub completions : ℕ
  pub bytes_pushed : ℕ

-- n1g_dma_t.
pub record Dma : Type 0 where
  pub regs : Array ℕ
  pub secondary_regs : Array ℕ
  pub lcd_request_armed : Array Bool
  pub lcd_transfers : Array ℕ
  pub lcd_geometry_accepts : ℕ
  pub lcd_geometry_mismatches : ℕ
  pub lcd_descriptor_pixels : ℕ
  pub lcd_block_pixels : ℕ
  pub lcd_mismatch_block_start : Array ℕ
  pub ch : Array DmaChannel

-- n1g_sysregs_t.
pub record Sysregs : Type 0 where
  pub pp_60003000 : Array ℕ
  pub periph_70003800 : Array ℕ

-- The counters that the modelled parts read or advance.
pub record Counters : Type 0 where
  pub guest_insns : ℕ
  pub scheduled_insns : ℕ
  pub active_slices : ℕ
  pub cpu_slice_calls : ℕ
  pub cop_slice_calls : ℕ
  pub halted_ticks : ℕ
  pub timing_boundaries : ℕ
  pub mmio_callbacks : ℕ
  pub device_ticks : ℕ
  pub disk_reads : ℕ
  pub disk_writes : ℕ
  pub irq_count : ℕ
  pub mmio_reads : ℕ
  pub mmio_writes : ℕ
  pub unrouted_mmio_reads : ℕ
  pub unrouted_mmio_writes : ℕ
  pub fast_forwarded_ticks : ℕ
  pub lcd_words : ℕ

-- n1g_state_t.
pub record State : Type 0 where
  pub opts : Opts
  pub cpu : Duo Cpu
  pub ram : Ram
  pub disk : Disk
  pub intc : Intc
  pub mailbox : Mailbox
  pub timer : Timer
  pub cpucon : Cpucon
  pub i2s : I2s
  pub serial : Duo SerialChannel
  pub opto : Opto
  pub flash : Flash
  pub i2c : I2c
  pub backlight : Backlight
  pub lcd2 : Lcd2
  pub dma : Dma
  pub sysregs : Sysregs
  pub gpio : Array ℕ
  pub evp : Array ℕ
  pub cachecon : Array ℕ
  pub devcon : Array ℕ
  pub memcon : Array ℕ
  pub ppcon : Array ℕ
  pub usb : Array ℕ
  pub flash_alias_mapped : Bool
  pub tb_flush_pending : Bool
  pub counters : Counters
  pub low0_map : LowMap
