-- ===== src/Tasks/Tcp.antt =====
-- src/tasks/tcp.rs: the HTTP server through which jobs are handed in.
pub mod Request
pub mod Upload
pub mod Handler
pub mod Worker
