-- ===== src/Bus/Settled.antt =====
-- What idle_devices_quiescent tests, and what it takes besides for the devices to be quiet.
use nano1g_unicorn_c.Base.{
  ℕ, zero, suc, ◌≡◌, ◌<◌, refl, arith, Bool, true, false, not, ◌&&◌, ◌==◌, bit_and, ==→eq,
  split_and,
}
use nano1g_unicorn_c.Word.{test_bits}
use nano1g_unicorn_c.State.{State}
use nano1g_unicorn_c.Serial.{serial_iir}
use nano1g_unicorn_c.Intc.Idle.{IsClear}
use nano1g_unicorn_c.Dma.Channel.{ch_reg}
use nano1g_unicorn_c.I2c.Battery.{i2c_idle_quiescent}
use nano1g_unicorn_c.Bus.Idle.{
  no_channel, quiet_timers, quiet_interrupts, quiet_disk, idle_devices_quiescent,
}
use nano1g_unicorn_c.Bus.Quiet.{IsQuiet}

-- What the test leaves open: no UART has an interrupt to report, the audio port, which is off, has
-- dropped its fraction of a sample and its underrun, and no DMA channel's command asks for a transfer
-- to the LCD.
pub record IsSettled (s : State) : Type 0 where
  pub uart0 : (bit_and (serial_iir s.serial.at0) 0x01 == 0) ≡ false
  pub uart1 : (bit_and (serial_iir s.serial.at1) 0x01 == 0) ≡ false
  pub drained : s.i2s.drain_acc ≡ 0
  pub no_underrun : s.i2s.underrun_active ≡ false
  pub no_request : (i : ℕ) → i < 4 → test_bits (ch_reg s.dma i 0x00) 0x01000000 ≡ false

is_not : (b : Bool) → not b ≡ true → b ≡ false
is_not true h = absurd (cc h)
is_not false h = refl

timers-quiet :
    (s : State)
    → quiet_timers s ≡ true
    → (test_bits s.timer.cfg.at0 0x80000000 ≡ false)
      × (test_bits s.timer.cfg.at1 0x80000000 ≡ false)
      × (s.cpucon.wait_ticks.at0 ≡ 0)
      × (s.cpucon.wait_ticks.at1 ≡ 0)
      × (s.i2s.config ≡ 0)
      × (s.opto.pending_release_bits ≡ 0)
unfolding quiet_timers
timers-quiet s h =
    let h1 = (split_and _ _ (split_and _ _ h).0).0 in
    let (h2, f) = split_and _ _ h1 in
    let (h3, e) = split_and _ _ h2 in
    let (h4, d) = split_and _ _ h3 in
    let (h5, c) = split_and _ _ h4 in
    let (a, b) = split_and _ _ h5 in
    (is_not _ a, is_not _ b, ==→eq _ _ c, ==→eq _ _ d, ==→eq _ _ e, ==→eq _ _ f)

interrupts-IsClear : (s : State) → quiet_interrupts s ≡ true → IsClear s.intc
unfolding quiet_interrupts
interrupts-IsClear s h =
    let (h1, f) = split_and _ _ h in
    let (h2, e) = split_and _ _ h1 in
    let (h3, d) = split_and _ _ h2 in
    let (h4, c) = split_and _ _ h3 in
    let (a, b) = split_and _ _ h4 in
    record {
      cpu_clear = ==→eq _ _ a;
      cop_clear = ==→eq _ _ b;
      forced_clear = ==→eq _ _ c;
      hi_cpu_clear = ==→eq _ _ d;
      hi_cop_clear = ==→eq _ _ e;
      hi_forced_clear = ==→eq _ _ f;
    }

disk-quiet :
    (s : State)
    → quiet_disk s ≡ true
    → (s.disk.dma_pending ≡ false)
      × (s.disk.pio_data_pending ≡ false)
      × (s.disk.pio_completion_pending ≡ false)
      × (s.disk.nondata_pending ≡ false)
      × (s.disk.soft_reset_pending ≡ false)
unfolding quiet_disk
disk-quiet s h =
    let (h1, e) = split_and _ _ h in
    let (h2, d) = split_and _ _ h1 in
    let (h3, c) = split_and _ _ h2 in
    let (a, b) = split_and _ _ h3 in (is_not _ a, is_not _ b, is_not _ c, is_not _ d, is_not _ e)

channel-quiet : (s : State) (i : ℕ) → no_channel s i ≡ true → (s.dma.ch i).active ≡ false
channel-quiet s i h =
    is_not _ (split_and (not (s.dma.lcd_request_armed i)) (not (s.dma.ch i).active) h).1

channels-quiet :
    (s : State)
    → (no_channel s 0 && no_channel s 1 && no_channel s 2 && no_channel s 3) ≡ true
    → (i : ℕ) → i < 4
    → (s.dma.ch i).active ≡ false
channels-quiet s h i below =
    let (h1, d) = split_and _ (no_channel s 3) h in
    let (h2, c) = split_and _ (no_channel s 2) h1 in
    let (a, b) = split_and (no_channel s 0) (no_channel s 1) h2 in
    one_of_four i below (channel-quiet s 0 a) (channel-quiet s 1 b) (channel-quiet s 2 c)
      (channel-quiet s 3 d)
  where
    one_of_four :
        (i : ℕ)
        → i < 4
        → (s.dma.ch 0).active ≡ false
        → (s.dma.ch 1).active ≡ false
        → (s.dma.ch 2).active ≡ false
        → (s.dma.ch 3).active ≡ false
        → (s.dma.ch i).active ≡ false
    one_of_four zero l a b c d = a
    one_of_four (suc zero) l a b c d = b
    one_of_four (suc (suc zero)) l a b c d = c
    one_of_four (suc (suc (suc zero))) l a b c d = d
    one_of_four (suc (suc (suc (suc n)))) l a b c d = absurd (omega (arith, l))

-- A machine that passes the test and is settled besides is quiet, and its battery is steady.
pub quiescent-IsQuiet :
    (s : State)
    → idle_devices_quiescent s ≡ true
    → IsSettled s
    → IsQuiet s × (i2c_idle_quiescent s ≡ true)
unfolding idle_devices_quiescent
quiescent-IsQuiet s h c =
    let (h1, steady) = split_and _ (i2c_idle_quiescent s) h in
    let (h2, e) =
      split_and _ (no_channel s 0 && no_channel s 1 && no_channel s 2 && no_channel s 3)
        (split_and _ (not s.serial.at0.thre_irq_pending && not s.serial.at1.thre_irq_pending)
          h1).0 in
    let (h3, d) = split_and _ (quiet_disk s) h2 in
    let (a, b) = split_and (quiet_timers s) (quiet_interrupts s) h3 in
    let (timer0, timer1, wait0, wait1, stopped, release) = timers-quiet s a in
    let (no_dma, no_data, no_completion, no_nondata, no_reset) = disk-quiet s d in
    (
      record {
        timer0 = timer0;
        timer1 = timer1;
        wait0 = wait0;
        wait1 = wait1;
        release = release;
        clear = interrupts-IsClear s b;
        uart0 = c.uart0;
        uart1 = c.uart1;
        stopped = stopped;
        drained = c.drained;
        no_underrun = c.no_underrun;
        no_request = c.no_request;
        no_audio = channels-quiet s e;
        no_dma = no_dma;
        no_data = no_data;
        no_completion = no_completion;
        no_nondata = no_nondata;
        no_reset = no_reset;
      },
      steady,
    )
