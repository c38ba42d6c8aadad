-- ===== src/Tasks.antt =====
-- src/tasks: the Embassy tasks and the messages that they exchange.
pub mod Messages
pub mod Udp
pub mod Ring
pub mod Alerts
pub mod Agreement
pub mod Tcp
pub mod Distribute
pub mod Rng
pub mod Locks
