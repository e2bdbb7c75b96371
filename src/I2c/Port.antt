-- ===== src/I2c/Port.antt =====
-- The controller: its registers, and the transactions that a write of the control register starts.
use nano1g_unicorn_c.Base.{
  ℕ, zero, suc, ◌+◌, ◌-◌, ◌*◌, ◌/◌, ◌^◌, Bool, not, ◌&&◌, ltb, ◌==◌, if◌then◌else◌, bit_and, bit_or,
  Array, store,
}
use nano1g_unicorn_c.Word.{u8, u64, test_bits, shl32, read_part}
use nano1g_unicorn_c.State.{State}
use nano1g_unicorn_c.I2c.Codec.{wm8975_write}
use nano1g_unicorn_c.I2c.Pcf.{pcf_read, pcf_write}

unfoldable pub data32 : Array ℕ → ℕ
data32 bytes =
    bit_or (bit_or (bit_or (bytes 0) (shl32 (bytes 1) 8)) (shl32 (bytes 2) 16)) (shl32 (bytes 3) 24)

-- The rounds i = 0, 1, … of the loop; a round past the four bytes does nothing.
unfoldable pub write_data_bytes : Array ℕ → ℕ → ℕ → ℕ → Array ℕ
write_data_bytes bytes first zero value = bytes
write_data_bytes bytes first (suc i) value =
    let earlier = write_data_bytes bytes first i value in
    if ltb (first + i) 4 then store earlier (first + i) (u8 (value / 2 ^ (i * 8))) else earlier

-- The loop of start_txn over the power chip's bytes, in the two directions.
unfoldable pub pcf_receive : State → ℕ → State
pcf_receive s zero = s
pcf_receive s (suc i) =
    let earlier = pcf_receive s i in
    let (value, t) = pcf_read earlier in
    record t { i2c = record t.i2c { bytes = store t.i2c.bytes i value } }

unfoldable pub pcf_send : State → ℕ → State
pcf_send s zero = s
pcf_send s (suc i) =
    let earlier = pcf_send s i in
    record earlier { i2c = pcf_write earlier (earlier.i2c.bytes i) (i == 0) }

-- The part of start_txn that the chip at the address does.
unfoldable pub address_chip : State → ℕ → Bool → ℕ → State
unfolding pcf_receive pcf_send
address_chip s addr is_read count =
    if addr == 0x08
    then (if is_read then pcf_receive s count else pcf_send s count)
    else if (addr == 0x1a) && not is_read
    then record s { i2c = wm8975_write s.i2c count }
    else if is_read
    then record s { i2c = record s.i2c { bytes = λ _. 0 } }
    else s

-- start_txn: the direction is the control register's, at most four bytes are moved.
unfoldable pub start_txn : State → State
unfolding address_chip data32
start_txn s =
    let addr = bit_and (s.i2c.addr_op / 2) 0x7f in
    let is_read = test_bits s.i2c.control 0x20 in
    let count = bit_and (s.i2c.control / 2) 0x03 + 1 in
    let t = address_chip s addr is_read count in
    let c = t.i2c in
    record t {
      i2c = record c {
        transactions = u64 (c.transactions + 1);
        addr_reads =
            if is_read then store c.addr_reads addr (u64 (c.addr_reads addr + 1)) else c.addr_reads;
        addr_writes =
            if is_read
            then c.addr_writes
            else store c.addr_writes addr (u64 (c.addr_writes addr + 1));
        last_addr = addr;
        last_count = count;
        last_read = is_read;
        last_data = data32 c.bytes;
        busy_reads = 1;
      };
    }

-- n1g_dev_i2c_read.
unfoldable pub i2c_read : State → ℕ → ℕ → ℕ × State
unfolding data32
i2c_read s offset size =
    let c = s.i2c in
    if offset == 0x00
    then (read_part (bit_and c.control 0x26) offset size, s)
    else if offset == 0x04
    then (read_part c.addr_op offset size, s)
    else if offset == 0x0c
    then (read_part (data32 c.bytes) offset size, s)
    else if offset == 0x10
    then (read_part (c.bytes 1) offset size, s)
    else if offset == 0x14
    then (read_part (c.bytes 2) offset size, s)
    else if offset == 0x18
    then (read_part (c.bytes 3) offset size, s)
    else if offset == 0x1c
    then (if c.busy_reads == 0
        then (0, s)
        else (0x40, record s { i2c = record c { busy_reads = c.busy_reads - 1 } }))
    else (if ltb offset 0x100 then c.regs (offset / 4) else 0, s)

-- n1g_dev_i2c_write.
unfoldable pub i2c_write : State → ℕ → ℕ → ℕ → State
unfolding write_data_bytes start_txn
i2c_write s offset size value =
    let c = s.i2c in
    let set = record s { i2c = record c { control = u8 value } } in
    let data_at : ℕ → State =
      λ first. record s { i2c = record c { bytes = write_data_bytes c.bytes first size value } } in
    if offset == 0x00
    then (if test_bits (u8 value) 0x80 then start_txn set else set)
    else if offset == 0x04
    then record s { i2c = record c { addr_op = u8 value } }
    else if offset == 0x0c
    then data_at 0
    else if offset == 0x10
    then data_at 1
    else if offset == 0x14
    then data_at 2
    else if offset == 0x18
    then data_at 3
    else if ltb offset 0x100
    then record s { i2c = record c { regs = store c.regs (offset / 4) value } }
    else s
