-- ===== src/Transfer.antt =====
-- A file's way from one machine to another: the request that src/lwip/put.rs writes, at the server of
-- src/tasks/tcp.rs; and the responses that it gives.
pub mod Visible
mod Lines
pub mod Header
pub mod Stored
pub mod Machines
pub mod Responses
pub mod Refusals
