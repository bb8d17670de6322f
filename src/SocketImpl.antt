-- ===== src/SocketImpl.antt =====
-- source/socket_impl.h and source/socket_impl.c: the adapter's connections.
pub mod Types
pub mod Defs
pub mod Slots
pub mod Opening
pub mod Accounts
pub mod Accepting
pub mod Callbacks
pub mod Lifetime
pub mod Results
pub mod Addresses
pub mod Messages
mod Tests
mod MessageTests
