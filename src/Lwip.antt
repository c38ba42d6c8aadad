-- ===== src/Lwip.antt =====
-- The code of src/lwip.
pub mod Bindings
pub mod Access
pub mod IpAddr
pub mod PacketBuffer
pub mod Udp
pub mod Tcp
pub mod Put
