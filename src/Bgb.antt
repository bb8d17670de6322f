-- ===== src/Bgb.antt =====
-- source/bgblink.h and source/bgblink.c: the link with the BGB emulator.
pub mod Packet
pub mod Link
pub mod Exchange
pub mod Keeps
pub mod Failure
pub mod Codec
pub mod Vba
pub mod Clock
pub mod Reports
pub mod Peer
pub mod Serial
pub mod Line
pub mod Logged
pub mod Service
pub mod Greeting
mod Tests
mod VbaTests
