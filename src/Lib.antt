-- ===== src/Lib.antt =====
-- Verification of nano1g-unicorn-c, an emulator of the iPod nano (first generation).
--
-- The program emulates the PP5021 chip of that player: two ARM cores, run by the Unicorn engine, and
-- the devices around them. All state is one n1g_state_t. The bus (src/bus.c) hands each access of a
-- core to the read or write function of a device, and the main loop calls the tick function of each
-- device between runs of the cores. A device raises an interrupt by setting bits of the interrupt
-- controller's status words; the controller's tick enters the interrupt on the cores.
--
-- Each C function is a function of the state, with the value read beside the new state where a read
-- has effects. A pointer into memory is which memory and an offset. Numbers are unbounded, and each
-- conversion and each wrap-around of the source is written out (u8, u16, u32, u64 of Word.Ops).
-- Loops are structural recursion on their bound. Six run on fuel. Five of them have enough by what
-- they are given: the drain loop of the audio port (its accumulator in millions), the words of an
-- audio transfer (its bytes), the turn of the wheel back to its circle (the turn itself), and the
-- search for a firmware image and the walk over its directory (the size of the file). The main loop
-- takes the number of its rounds; a run with a budget needs one for each instruction of it.
--
-- The parts and their files:
--   Base, Word    lists, options and tests; the shared operations on uint32_t (mask_for_size,
--                 read_part, merge_write of every device file) and the laws of their digits
--   State, Sample include/nano1g/state.h: the records; a machine after power-up, a register file and
--                 a processor library for the tests
--   Ram           src/ram.c: n1g_ram_ptr, n1g_ram_read, n1g_ram_write. Copy is a memcpy into memory;
--                 Bounds, Inner and RoundTrip prove
--   Flash         src/dev_flash.c: n1g_dev_flash_write is flash_write, its work on the chip
--                 write_chip. Contents holds the abstract chip, Erase the erase command
--   Timer         src/dev_timer.c: the loop body of n1g_dev_timer_tick is tick_channel. Pulse
--                 counts single steps, Tick the whole device
--   Cpucon        src/dev_cpucon.c: sleeping of a core. Wait proves
--   Mailbox       src/dev_mailbox.c: messages between the cores. Notify proves
--   Intc          src/dev_intc.c, and n1g_cpu_raise_fiq, n1g_cpu_raise_irq of src/cpu_unicorn.c.
--                 Routing is on the pending tests, Entry on the tick
--   Memmap        src/memmap.c: the address map's translation. Page proves
--   Disk          src/disk_ata.c: Identify (IDENTIFY DEVICE), Control (interrupt line, completions,
--                 soft reset), Pio (data words), Dma (transfers to memory), Registers (task file,
--                 commands, n1g_disk_tick, n1g_disk_read, n1g_disk_write). Guest is a driver's
--                 accesses; Reading, Writing, Span, RoundTrip, DmaTick, Fetching, Errors, Invariant,
--                 Words, Moving and Preserve prove
--
--   Irq           how a device raises or drops one bit of the status words
--   Banks         src/dev_evp.c, dev_usb.c, dev_sysregs.c, dev_devcon.c, dev_ppcon.c, dev_memcon.c,
--                 dev_cachecon.c: banks of registers
--   Serial        src/dev_serial.c: the two UARTs. Line is on their interrupt lines
--   I2c           src/dev_i2c.c: Codec (the WM8975), Battery, Rtc, Standby, Pcf and Tick (the
--                 PCF50605), Port (the controller). Calendar, Dates and Backup are on the clock
--   I2s           src/dev_i2s.c: the audio FIFO. Drain is on the tick's loop
--   Opto          src/dev_opto.c: buttons and wheel. Queue refines the packets, Wheel is on its loop
--   Backlight     src/dev_backlight.c: clicker, light and dimmer
--   Gpio          src/dev_gpio.c: the ports, the hold switch, the chargers. Pending is on the interrupt
--   Lcd2          src/dev_lcd2.c: the display's window, cursor and blocks. Bounds is on
--                 every write, Raster and Window on the order of the pixels
--   Dma           src/dev_dma.c: Channel (audio), Lcd (display transfers), Port (registers, tick). Audio
--                 is on the audio channels' loop
--   Bus           src/bus.c and include/nano1g/map.h: Route is the address map, Access the reads,
--                 writes and the tick of the machine, Idle the advance over idle time. Windows and
--                 Deadlines hold proofs; Settled, Quiet, QuietTicks, Steps, FastForward and Calm compare an advance with
--                 the ticks it stands for, with Timer.Idle, Intc.Idle and Only, Phase, Rest of I2c
--   Script        src/input_script.c: the player of scripted input events. Ends is on its end
--   Firmware      src/firmware.c: where firmware images and the flash ROM are placed. Placement is on
--                 the wrapped image, Errors on failed loads, Inside on the bytes that are read
--   Cpu           src/cpu_unicorn.c: registers, callbacks, the fill of the TLB and the software
--                 interrupt. Mapping is the memory map; Backing, Above, Started and Remap are on what the
--                 cores' addresses show, Apply, Windows and Swi hold more proofs
--   Boot          src/boot_reset.c: the start of both cores. Start proves
--   PcfState      src/main.c, save_pcf_state and load_pcf_state: the power chip's file. RoundTrip is on
--                 the file's numbers, Clock on the chip
--   Run           src/main.c, the loop of main, and n1g_cpu_step_slice of src/cpu_unicorn.c. Progress is
--                 on its end, Skip on the advance over idle time
--
-- The devices meet in the state: the bus calls them by address and by tick, each drives its bits of
-- the status words, the DMA pushes into the audio FIFO and the display's port and reads memory, the
-- audio port reads the codec's gain, the ports call the click wheel, the power chip and the light.
-- The main loop gives each core a slice and then ticks the bus and the input script, or else skips
-- idle time as far as the bus, the script and the budget allow. A core's access to a device comes back
-- through the callbacks of Cpu to the bus.
--
-- Parameters: the processor engine (uc_reg_read, uc_reg_write, uc_emu_stop) is the record Engine,
-- and IsFaithful names what is relied on: registers are read as written, each core has its own.
-- The Unicorn library's operations on the memory map are the record Unicorn, with the answer of each as
-- a Boolean; IsMapping names what is relied on for the address map: a mapping that succeeds shows its
-- buffer in its range, and nothing outside the range changes. Where a theorem does not ask for it,
-- nothing is assumed of them; uc_emu_start, with all that its callbacks do, is a function
-- that a slice takes. n1g_cpu_apply_memmap is apply_memmap of Cpu.Mapping, and a function of the state
-- for the write of the memory controller. What n1g_read_file reads, the saved file's bytes and the time
-- of the wall clock are arguments.
--
-- The bounds are those of the source: 32 MiB of SDRAM seen through two windows of four mirrors, a
-- flash of 1 MiB with a window of 256 bytes, sectors of 512 bytes, at most 256 of them per command.
-- A division by a timer divider of 0 traps in C; main.c refuses that option, and the theorem on the
-- tick asks for a divider above 0.
--
-- Not modelled: log lines and counters kept for them; the host's access statistics; allocation, file
-- input and output, the picture file; the text of the last input; the set-up of Unicorn and its hooks on
-- guest code, which log, count and change the firmware; the input script's parser, the command line
-- with its presets, the restart, and the web front end with its polls in the main loop.
pub mod Backlight
pub mod Banks
pub mod Base
pub mod Boot
pub mod Bus
pub mod Cpu
pub mod Cpucon
pub mod Disk
pub mod Dma
pub mod Firmware
pub mod Flash
pub mod Gpio
pub mod I2c
pub mod I2s
pub mod Intc
pub mod Irq
pub mod Lcd2
pub mod Mailbox
pub mod Memmap
pub mod Opto
pub mod PcfState
pub mod Ram
pub mod Run
pub mod Sample
pub mod Script
pub mod Serial
pub mod State
pub mod Timer
pub mod Word
