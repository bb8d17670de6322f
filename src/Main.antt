-- ===== src/Main.antt =====
-- source/main.c: the program that connects the adapter, its sockets and the emulator.
pub mod User
pub mod Session
pub mod Signal
pub mod Program
pub mod Setup
pub mod Whole
pub mod Running
pub mod Line
pub mod Aside
pub mod Served
pub mod Rounds
pub mod Ending
pub mod Closing
pub mod Waiting
pub mod Args
pub mod Usage
pub mod Ready
pub mod Ports
pub mod Tokens
pub mod Clock
pub mod Reset
pub mod Restart
pub mod Hex
pub mod Config
pub mod Memory
pub mod Number
pub mod Title
mod Tests
mod Sample
mod SessionTests
mod ProgramTests
mod ArgsTests
mod ServedTests
mod SignalTests
mod RestartTests
mod UsageTests
