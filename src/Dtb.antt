-- ===== src/Dtb.antt =====
-- The device tree parser, dtb/src/lib.rs, and its build script, dtb/build.rs.
pub mod Utf8
pub mod BigEndian
pub mod Regs
pub mod Header
pub mod Reserve
pub mod CharStrings
pub mod DeviceNode
pub mod Address
pub mod AddressIter
pub mod Token
pub mod Parser
pub mod Rounds
pub mod Threading
pub mod Keeps
pub mod Agree
pub mod Ends
pub mod ItWorks
pub mod Break
pub mod Layout
pub mod Naturality
pub mod Walk
pub mod Build
pub mod Samples
mod Tests
mod AddressTests
mod SearchTests
