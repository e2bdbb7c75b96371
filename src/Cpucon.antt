-- ===== src/Cpucon.antt =====
-- src/dev_cpucon.c: how a core puts itself to sleep, and the count that wakes it.
pub mod Wait
mod Tests
use nano1g_unicorn_c.Base.{
  ℕ, ◌-◌, ◌*◌, ◌%◌, ◌^◌, Bool, true, false, not, ◌&&◌, ◌||◌, ◌==◌, if◌then◌else◌, bit_and, Core,
  cpu, cop, get, put,
}
use nano1g_unicorn_c.Word.{u32, clear_bits, test_bits}
use nano1g_unicorn_c.State.{State, Cpucon}

abbrev pub sleep_or_wait : ℕ
sleep_or_wait = 0xc0000000

abbrev pub wait_cnt : ℕ
wait_cnt = 0x40000000

abbrev pub cnt_mask : ℕ
cnt_mask = 0x0f800000

-- CPUCON_SLEEP | CPUCON_WAIT_CNT | CPUCON_WAKE_INT | 0xff, what a wake-up clears.
abbrev pub woken_bits : ℕ
woken_bits = 0xe00000ff

-- The products stay below 2 ^ 32, since the count is a byte.
unfoldable pub wait_count_ticks : ℕ → ℕ
wait_count_ticks ctl =
    let low = bit_and ctl 0xff in
    let count = if low == 0 then 1 else low in
    if test_bits ctl 0x01000000
    then u32 (count * 1000)
    else if test_bits ctl 0x00800000
    then u32 (count * 1000000)
    else count

unfoldable pub update_control : State → Core → ℕ → State
update_control s core value =
    let counts = test_bits value wait_cnt && test_bits value cnt_mask in
    record s {
      cpucon = record s.cpucon {
        ctl = put s.cpucon.ctl core value;
        wait_ticks = put s.cpucon.wait_ticks core (if counts then wait_count_ticks value else 0);
      };
      cpu = put s.cpu core (record (get s.cpu core) { halted = test_bits value sleep_or_wait });
    }

-- n1g_dev_cpucon_read.
unfoldable pub cpucon_read : State → ℕ → ℕ
cpucon_read s offset =
    if offset == 0x00 then s.cpucon.ctl.at0 else if offset == 0x04 then s.cpucon.ctl.at1 else 0

-- n1g_dev_cpucon_write; it uses no size, and its log lines are not modelled.
unfoldable pub cpucon_write : State → ℕ → ℕ → State
unfolding update_control
cpucon_write s offset value =
    if offset == 0x00
    then update_control s cpu value
    else if offset == 0x04
    then update_control s cop value
    else s

-- One round of n1g_dev_cpucon_tick.
unfoldable pub tick_core : Core → State → State
tick_core core s =
    let ctl = get s.cpucon.ctl core in
    let count = get s.cpucon.wait_ticks core in
    let counted = record s {
      cpucon = record s.cpucon { wait_ticks = put s.cpucon.wait_ticks core (count - 1) };
    } in
    if not (test_bits ctl wait_cnt) || not (get s.cpu core).halted
    then s
    else if not (test_bits ctl cnt_mask)
    then s
    else if count == 0
    then s
    else if (count - 1) == 0
    then record counted {
      cpucon = record counted.cpucon { ctl = put s.cpucon.ctl core (clear_bits ctl woken_bits) };
      cpu = put s.cpu core (record (get s.cpu core) { halted = false });
    }
    else counted

unfoldable pub cpucon_tick : State → State
unfolding tick_core
cpucon_tick s = tick_core cop (tick_core cpu s)
