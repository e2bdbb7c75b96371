-- ===== src/Bus.antt =====
-- src/bus.c: the address map of the devices, sized accesses through it, and the tick of the machine.
-- The host's statistics and the log are left out.
pub mod Route
pub mod Access
pub mod Idle
pub mod Quiet
pub mod QuietTicks
pub mod Settled
pub mod Steps
pub mod FastForward
pub mod Calm
pub mod Windows
pub mod Deadlines
mod Tests
