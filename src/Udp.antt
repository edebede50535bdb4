-- ===== src/Udp.antt =====
-- udp/: the transport over datagrams.
pub mod Coder
pub mod Retransmission
pub mod Connection
