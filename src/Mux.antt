-- ===== src/Mux.antt =====
-- mux/: the multiplexer of requests.
pub mod Router
