-- ===== src/Dns.antt =====
-- backend/src/dns: the servers that receive packets.
pub mod Mono
pub mod Cold
pub mod Tcp
pub mod Udp
pub mod Server
