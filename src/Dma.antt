-- ===== src/Dma.antt =====
-- src/dev_dma.c: the channels that feed the audio port and the display from memory, and the hand-over
-- to the Apple firmware. Log lines are left out.
pub mod Channel
pub mod Lcd
pub mod Port
pub mod Audio
mod Tests
