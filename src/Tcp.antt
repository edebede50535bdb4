-- ===== src/Tcp.antt =====
-- tcp/: the transport over streams.
pub mod Coder
pub mod Session
