-- ===== src/Bus/Quiet.antt =====
-- Quiet devices: those that an advance over idle time leaves out.
use nano1g_unicorn_c.Base.{
  if_either, if_false, if_true, ℕ, ◌<◌, arith, ◌≡◌, refl, sym, ◌∙◌, ap, ap₂, Bool, true, false, not,
  ◌||◌, ◌==◌, if◌then◌else◌, Core, cpu, cop, get, bit_and,
}
use nano1g_unicorn_c.Word.{not32, test_bits, clear_bits}
use nano1g_unicorn_c.State.{State, Intc}
use nano1g_unicorn_c.Irq.{drive_hi}
use nano1g_unicorn_c.Intc.Idle.{IsClear, zero-and}
use nano1g_unicorn_c.Opto.{opto_tick}
use nano1g_unicorn_c.Cpucon.{cpucon_tick, tick_core}
use nano1g_unicorn_c.Disk.Registers.{disk_tick, open_data_phase}
use nano1g_unicorn_c.Disk.Control.{finish_transfer}
use nano1g_unicorn_c.Disk.Dma.{complete_dma_transfer}
use nano1g_unicorn_c.Serial.{irq_bit, serial_iir, serial_update_irq, serial_tick}
use nano1g_unicorn_c.I2s.{i2s_tick}
use nano1g_unicorn_c.Dma.Channel.{ch_reg, audio_ch_run}
use nano1g_unicorn_c.Dma.Lcd.{dma_try_lcd_transfer}
use nano1g_unicorn_c.Dma.Port.{dma_tick}

or_left : (a b : Bool) → a ≡ true → (a || b) ≡ true
or_left true b h = refl
or_left false b h = absurd (cc h)

-- The devices that are quiet.
pub record IsQuiet (s : State) : Type 0 where
  pub timer0 : test_bits s.timer.cfg.at0 0x80000000 ≡ false
  pub timer1 : test_bits s.timer.cfg.at1 0x80000000 ≡ false
  pub wait0 : s.cpucon.wait_ticks.at0 ≡ 0
  pub wait1 : s.cpucon.wait_ticks.at1 ≡ 0
  pub release : s.opto.pending_release_bits ≡ 0
  pub clear : IsClear s.intc
  pub uart0 : (bit_and (serial_iir s.serial.at0) 0x01 == 0) ≡ false
  pub uart1 : (bit_and (serial_iir s.serial.at1) 0x01 == 0) ≡ false
  pub stopped : s.i2s.config ≡ 0
  pub drained : s.i2s.drain_acc ≡ 0
  pub no_underrun : s.i2s.underrun_active ≡ false
  pub no_request : (i : ℕ) → i < 4 → test_bits (ch_reg s.dma i 0x00) 0x01000000 ≡ false
  pub no_audio : (i : ℕ) → i < 4 → (s.dma.ch i).active ≡ false
  pub no_dma : s.disk.dma_pending ≡ false
  pub no_data : s.disk.pio_data_pending ≡ false
  pub no_completion : s.disk.pio_completion_pending ≡ false
  pub no_nondata : s.disk.nondata_pending ≡ false
  pub no_reset : s.disk.soft_reset_pending ≡ false

pub opto_tick-IsQuiet : (s : State) → IsQuiet s → opto_tick s ≡ s
unfolding opto_tick
opto_tick-IsQuiet s q =
    if_true _ s _ (or_left (s.opto.pending_release_bits == 0) _ (ap (λ t. t == 0) q.release))

tick_core-IsQuiet :
    (s : State) (core : Core) → get s.cpucon.wait_ticks core ≡ 0 → tick_core core s ≡ s
unfolding tick_core
tick_core-IsQuiet s core h = if_either _ s _ (if_either _ s _ (if_true _ s _ (ap (λ t. t == 0) h)))

pub disk_tick-IsQuiet : (s : State) → IsQuiet s → disk_tick s ≡ s
unfolding disk_tick
disk_tick-IsQuiet s q =
    let d = s.disk in
    let a = if_false d.nondata_pending _ s q.no_nondata in
    let b =
      ap (λ t. if t.disk.pio_completion_pending then finish_transfer t true else t) a
      ∙ if_false d.pio_completion_pending _ s q.no_completion in
    let c =
      ap (λ t. if t.disk.pio_data_pending then open_data_phase t else t) b
      ∙ if_false d.pio_data_pending _ s q.no_data in
    if_either d.soft_reset_asserted s _ (
      if_false d.soft_reset_pending _ _ q.no_reset
      ∙ ap (λ t. if t.disk.dma_pending then complete_dma_transfer t else t) c
      ∙ if_false d.dma_pending _ s q.no_dma)

cleared :
    (n : Intc) (bit : ℕ) → n.hi_cpu_status ≡ 0 → n.hi_cop_status ≡ 0 → drive_hi false bit n ≡ n
unfolding drive_hi
cleared n bit h k =
    ap₂ (λ a b. record n { hi_cpu_status = a; hi_cop_status = b })
      (ap (λ t. clear_bits t bit) h ∙ zero-and (not32 bit) ∙ sym h)
      (ap (λ t. clear_bits t bit) k ∙ zero-and (not32 bit) ∙ sym k)

uart-IsQuiet :
    (s : State) (core : Core)
    → s.intc.hi_cpu_status ≡ 0
    → s.intc.hi_cop_status ≡ 0
    → (bit_and (serial_iir (get s.serial core)) 0x01 == 0) ≡ false
    → serial_update_irq s core ≡ s
unfolding serial_update_irq
uart-IsQuiet s core h k u =
    ap (λ n. record s { intc = n })
      (ap (λ b. drive_hi b (irq_bit core) s.intc) u ∙ cleared s.intc (irq_bit core) h k)

pub i2s_tick-IsQuiet : (s : State) → IsQuiet s → i2s_tick s ≡ s
unfolding i2s_tick
i2s_tick-IsQuiet s q =
    if_true (not (test_bits s.i2s.config 0x20000000)) _ _
      (ap (λ t. not (test_bits t 0x20000000)) q.stopped)
    ∙ ap₂ (λ a b. record s { i2s = record s.i2s { drain_acc = a; underrun_active = b } })
        (sym q.drained) (sym q.no_underrun)

pub serial_tick-IsQuiet : (s : State) → IsQuiet s → serial_tick s ≡ s
unfolding serial_tick
serial_tick-IsQuiet s q =
    ap (λ t. serial_update_irq t cop)
      (uart-IsQuiet s cpu q.clear.hi_cpu_clear q.clear.hi_cop_clear q.uart0)
    ∙ uart-IsQuiet s cop q.clear.hi_cpu_clear q.clear.hi_cop_clear q.uart1

pub cpucon_tick-IsQuiet : (s : State) → IsQuiet s → cpucon_tick s ≡ s
unfolding cpucon_tick
cpucon_tick-IsQuiet s q =
    ap (tick_core cop) (tick_core-IsQuiet s cpu q.wait0) ∙ tick_core-IsQuiet s cop q.wait1

no_transfer : (s : State) (i : ℕ) → IsQuiet s → i < 4 → dma_try_lcd_transfer s i ≡ s
unfolding dma_try_lcd_transfer
no_transfer s i q h = rw (q.no_request i h) refl

no_run : (s : State) (i : ℕ) → IsQuiet s → i < 4 → audio_ch_run s i ≡ s
unfolding audio_ch_run
no_run s i q h = if_true _ s _ (or_left _ _ (ap not (q.no_audio i h)))

channel-IsQuiet :
    (s : State) (i : ℕ) → IsQuiet s → i < 4 → audio_ch_run (dma_try_lcd_transfer s i) i ≡ s
channel-IsQuiet s i q h = ap (λ t. audio_ch_run t i) (no_transfer s i q h) ∙ no_run s i q h

pub dma_tick-IsQuiet : (s : State) → IsQuiet s → dma_tick s ≡ s
unfolding dma_tick
dma_tick-IsQuiet s q =
    let one : (i : ℕ) → i < 4 → audio_ch_run (dma_try_lcd_transfer s i) i ≡ s =
      λ i. channel-IsQuiet s i q in
    rw (one 0 (omega arith), one 1 (omega arith), one 2 (omega arith), one 3 (omega arith)) refl
