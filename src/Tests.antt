-- ===== src/Tests.antt =====
-- Runs of the model at concrete inputs: the library of DNS functions that they use, a router, a
-- logger and some messages.
pub mod Library
pub mod Data
pub mod Wires
mod ServerTests
mod ManagerTests
mod BootstrapTests
mod PoolTests
mod DownloadTests
mod RouterTests
mod ClientTests
mod QueryLogTests
mod ConfigTests
pub mod ListenTests
mod LogFileTests
mod WebTests
