-- ===== src/Sample/Library.antt =====
-- A processor library, for the tests: every operation on its memory map succeeds, and one word of its
-- memory is a software interrupt.
use nano1g_unicorn_c.Base.{true, some, ◌==◌, if◌then◌else◌}
use nano1g_unicorn_c.Sample.File.{Table, file}
use nano1g_unicorn_c.Cpu.{Unicorn}

abbrev pub library : Unicorn Table
library = record {
  regs = file;
  mem_read = λ e core addr. some (if addr == 0x100 then 0xef000005 else 0);
  map_ptr = λ e core addr size region. (e, true);
  mem_map = λ e core addr size. (e, true);
  mem_write = λ e core addr region. (e, true);
  unmap = λ e core addr size. (e, true);
  mmio_map = λ e core base size. (e, true);
  flush = λ e core. e;
}
