-- ===== src/Bootloader.antt =====
-- The boot loader, bootloader/src.
pub mod Registers
pub mod Layouts
pub mod Rp1Info
pub mod Pl011
pub mod Rp1Gpio
pub mod SysTimer
pub mod Board
pub mod Print
pub mod Boot
pub mod BuildScript
mod Tests
mod UartTests
mod BootSamples
mod DiscoveryTests
mod BootTests
mod CoreTests
