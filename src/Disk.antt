-- ===== src/Disk.antt =====
-- src/disk_ata.c: the ATA disk behind the IDE controller.
pub mod Identify
pub mod Control
pub mod Pio
pub mod Dma
pub mod Registers
pub mod Guest
pub mod Reading
pub mod Errors
pub mod Invariant
pub mod Writing
pub mod Span
pub mod RoundTrip
pub mod DmaTick
pub mod Fetching
pub mod Words
pub mod Moving
pub mod Preserve
mod Tests
