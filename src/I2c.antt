-- ===== src/I2c.antt =====
-- src/dev_i2c.c: the controller of the serial bus, and the two chips behind it: the codec WM8975 and
-- the power and clock chip PCF50605.
pub mod Codec
pub mod Battery
pub mod Phase
pub mod Rest
pub mod Rtc
pub mod Standby
pub mod Only
pub mod Pcf
pub mod Tick
pub mod Port
pub mod Calendar
pub mod Dates
pub mod Backup
mod Tests
