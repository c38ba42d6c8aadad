-- ===== src/Lwip/Tcp.antt =====
-- src/lwip/tcp.rs: the connections and the listener.
pub mod Connection
pub mod Listener
