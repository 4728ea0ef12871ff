-- ===== src/Examples.antt =====
-- Concrete connections, sockets and tables, and the theorems of the development at them.
pub mod Fixtures
mod Packages
mod Threads
mod Served
pub mod Runs
mod Witnesses
mod Bounds
mod Channels
mod Clients
