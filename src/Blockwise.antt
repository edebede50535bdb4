-- ===== src/Blockwise.antt =====
-- net/blockwise/: block-wise transfers.
pub mod BlockOption
pub mod QBlock
pub mod Exchange
pub mod Sending
pub mod Engine
pub mod Limits
pub mod Receiving
pub mod Keys
pub mod Handle
pub mod Upload
