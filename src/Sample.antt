-- ===== src/Sample.antt =====
-- A machine after power-up, for the tests: all registers and memories 0, both cores running.
pub mod File
pub mod Library
pub mod Memory
use nano1g_unicorn_c.Base.{ℕ, true, false, none, Duo, Array}
use nano1g_unicorn_c.State.{
  I2c, Backlight, Lcd2, Dma, DmaChannel, Sysregs, wake_none, State, Opts, Cpu, Intc, I2s,
  SerialChannel, Opto, Flash, Disk, rockbox, boot_direct, low_none, mode_array, transfer_none,
}

abbrev pub zeros : Array ℕ
zeros = λ _. 0

abbrev pub no_words : Duo ℕ
no_words = record { at0 = 0; at1 = 0 }

abbrev pub idle_opts : Opts
idle_opts = record {
  hold_switch_engaged = false;
  main_charger_connected = false;
  usb_charger_connected = false;
  battery_percent = 50;
  profile = rockbox;
  boot_mode = boot_direct;
  slice_insns = 512;
  timer_divider = 1;
  rtc_usec_per_tick = 1;
  load_addr = 0x10000000;
  entry = 0;
  entry_set = false;
  firmware_from_disk = false;
  map_flash_zero = false;
  virtual_memmap = false;
  run_forever = false;
  idle_fast_forward = true;
  has_input_script = false;
}

abbrev pub running_cpu : Cpu
running_cpu = record { running = true; halted = false; guest_insns = 0 }

abbrev pub quiet_intc : Intc
quiet_intc = record {
  cpu_status = 0;
  cop_status = 0;
  cpu_enable = 0;
  cop_enable = 0;
  cpu_priority = 0;
  cop_priority = 0;
  forced_status = 0;
  hi_cpu_status = 0;
  hi_cop_status = 0;
  hi_cpu_enable = 0;
  hi_cop_enable = 0;
  hi_cpu_priority = 0;
  hi_cop_priority = 0;
  hi_forced_status = 0;
}

abbrev pub idle_uart : SerialChannel
idle_uart = record {
  ier = 0;
  fcr = 0;
  lcr = 0;
  mcr = 0;
  lsr = 0;
  msr = 0;
  spr = 0;
  dll = 0;
  dlm = 0;
  extended = zeros;
  thre_irq_pending = false;
  tx_bytes = 0;
}

abbrev pub idle_i2s : I2s
idle_i2s = record {
  config = 0;
  clk = 0;
  fifo_cfg = 0;
  tx_fill = 0;
  tx_head = 0;
  tx_tail = 0;
  tx_fifo = zeros;
  drain_acc = 0;
  underrun_active = false;
  tx_halfwords = 0;
  tx_drained_halfwords = 0;
  tx_overruns = 0;
  pcm_ring = zeros;
  pcm_produced_halfwords = 0;
  pcm_stream_start_halfword = 0;
  pcm_nonzero_halfwords = 0;
  pcm_silenced_halfwords = 0;
  underruns = 0;
  underrun_halfwords = 0;
  host_dropped_halfwords = 0;
  pcm_peak = 0;
  pcm_sample_rate = 0;
  pcm_stream_id = 0;
}

abbrev pub idle_opto : Opto
idle_opto = record {
  regs = zeros;
  queue = zeros;
  button_bits = 0;
  pending_release_bits = 0;
  pending_release_tick = 0;
  queue_head = 0;
  queue_len = 0;
  wheel_pos = 0;
  input_events = 0;
  suppressed_events = 0;
}

abbrev pub blank_flash : Flash
blank_flash = record {
  bytes = zeros;
  saved_window = zeros;
  mode = mode_array;
  status = 0;
  saved_window_valid = false;
  program_pending = false;
  erase_pending = false;
}

abbrev pub no_disk : Disk
no_disk = record {
  image = none;
  size = 0;
  selected_lba = 0;
  transfer_lba = 0;
  sectors_remaining = 0;
  sector_count = 0;
  device = 0;
  command = 0;
  error = 0;
  status = 0x40;
  ide0_cfg = 0;
  ide1_cfg = 0;
  irq_pending = false;
  device_control = 0;
  dma_control = 0;
  dma_status = 0;
  dma_length = 0;
  dma_addr = 0;
  dma_unknown = 0;
  dma_pending = false;
  pio_data_pending = false;
  pio_ready_irq = false;
  pio_completion_pending = false;
  nondata_pending = false;
  soft_reset_asserted = false;
  soft_reset_pending = false;
  pending_multiple_update = false;
  pending_error = 0;
  pending_feature = 0;
  pending_multiple_count = 0;
  multiple_count = 0;
  transfer_kind = transfer_none;
  data_index = 0;
  identify = zeros;
}

abbrev pub idle_channel : DmaChannel
idle_channel = record {
  cur_addr = 0;
  bytes_left = 0;
  active = false;
  starts = 0;
  completions = 0;
  bytes_pushed = 0;
}

abbrev pub idle_i2c : I2c
idle_i2c = record {
  regs = zeros;
  addr_reads = zeros;
  addr_writes = zeros;
  transactions = 0;
  wm8975_regs = zeros;
  wm8975_written = 0;
  wm8975_resets = 0;
  wm8975_sample_rate = 0;
  wm8975_gain_q15 = no_words;
  wm8975_output_enabled = false;
  wm8975_legacy_mode = false;
  bytes = zeros;
  control = 0;
  addr_op = 0;
  busy_reads = 0;
  last_addr = 0;
  last_count = 0;
  last_read = false;
  last_data = 0;
  pcf_reg = 0;
  pcf_regs = zeros;
  pcf_written = 0;
  pcf_reg_reads = zeros;
  pcf_reg_writes = zeros;
  pcf_standby_requests = 0;
  pcf_standby_transitions = 0;
  pcf_wake_requests = 0;
  pcf_standby_deadline = 0;
  pcf_adc_deadline = 0;
  pcf_adc_conversions = 0;
  pcf_low_battery_deadline = 0;
  pcf_low_battery_standby_deadline = 0;
  pcf_low_battery_events = 0;
  rtc_base_ticks = 0;
  rtc_last_second = 0;
  rtc_second_interrupts = 0;
  rtc_alarm_interrupts = 0;
  pcf_adc_result1 = 0;
  pcf_adc_result2 = 0;
  pcf_last_wake = wake_none;
  pcf_adc_ready = false;
  pcf_low_battery = false;
  pcf_standby = false;
  rtc_alarm_match_active = false;
  pcf_reg_set = false;
}

abbrev pub dark : Backlight
dark = record {
  pwm_regs = zeros;
  dimmer_regs = zeros;
  generation = 0;
  dimmer_pulses = 0;
  dimmer_up_pulses = 0;
  dimmer_down_pulses = 0;
  clicker_writes = 0;
  clicker_starts = 0;
  clicker_stops = 0;
  clicker_start_tick = 0;
  clicker_last_duration_ticks = 0;
  clicker_period = 0;
  clicker_duty = 0;
  nano_level = 0;
  dimmer_busy_reads = 0;
  clicker_enabled = false;
  pwm_seen = false;
  dimmer_seen = false;
  nano_power_seen = false;
  nano_powered = false;
}

abbrev pub blank_lcd2 : Lcd2
blank_lcd2 = record {
  regs = zeros;
  pixels = zeros;
  cursor = 0;
  block_ctrl = 0;
  block_config = 0;
  block_pixels_remaining = 0;
  command = 0;
  window_x0 = 0;
  window_y0 = 0;
  window_x1 = 0;
  window_y1 = 0;
  cursor_x = 0;
  cursor_y = 0;
  pending_data_hi = 0;
  pending_command = false;
  pending_data = false;
  words = 0;
  gram_pixels = 0;
  block_pixels = 0;
  block_starts = 0;
  block_overrun_words = 0;
  cursor_sets = 0;
  window_sets = 0;
  last_block_cursor_x = 0;
  last_block_cursor_y = 0;
  dirty = false;
}

abbrev pub idle_dma : Dma
idle_dma = record {
  regs = zeros;
  secondary_regs = zeros;
  lcd_request_armed = λ _. false;
  lcd_transfers = zeros;
  lcd_geometry_accepts = 0;
  lcd_geometry_mismatches = 0;
  lcd_descriptor_pixels = 0;
  lcd_block_pixels = 0;
  lcd_mismatch_block_start = zeros;
  ch = λ _. idle_channel;
}

abbrev pub no_sysregs : Sysregs
no_sysregs = record { pp_60003000 = zeros; periph_70003800 = zeros }

abbrev pub idle : State
idle = record {
  opts = idle_opts;
  cpu = record { at0 = running_cpu; at1 = running_cpu };
  ram = record { sdram = zeros; fastram = zeros };
  disk = no_disk;
  intc = quiet_intc;
  mailbox = record { shared_bits = 0; queue = no_words };
  timer = record { cfg = no_words; val = no_words; usec = 0; cfg_tick_phase = 0 };
  cpucon = record { ctl = no_words; wait_ticks = no_words };
  i2s = idle_i2s;
  serial = record { at0 = idle_uart; at1 = idle_uart };
  opto = idle_opto;
  flash = blank_flash;
  counters = record {
    guest_insns = 0;
    scheduled_insns = 0;
    active_slices = 0;
    cpu_slice_calls = 0;
    cop_slice_calls = 0;
    halted_ticks = 0;
    timing_boundaries = 0;
    mmio_callbacks = 0;
    device_ticks = 0;
    disk_reads = 0;
    disk_writes = 0;
    irq_count = 0;
    mmio_reads = 0;
    mmio_writes = 0;
    unrouted_mmio_reads = 0;
    unrouted_mmio_writes = 0;
    fast_forwarded_ticks = 0;
    lcd_words = 0;
  };
  i2c = idle_i2c;
  backlight = dark;
  lcd2 = blank_lcd2;
  dma = idle_dma;
  sysregs = no_sysregs;
  gpio = zeros;
  devcon = zeros;
  memcon = zeros;
  ppcon = zeros;
  usb = zeros;
  flash_alias_mapped = false;
  tb_flush_pending = false;
  evp = zeros;
  cachecon = zeros;
  low0_map = low_none;
}

-- Both cores sleep, and a conversion of the power chip ends at tick 25.
abbrev sleeping_cpu : Cpu
sleeping_cpu = record running_cpu { halted = true }

abbrev pub asleep : State
asleep = record idle {
  cpu = record { at0 = sleeping_cpu; at1 = sleeping_cpu };
  i2c = record idle_i2c { pcf_adc_deadline = 25 };
}
