-- ===== src/Blockwise/QBlock.antt =====
-- net/blockwise/qblock/: the codecs and the configuration of Q-Block transfers.
pub mod Config
pub mod OptionCodec
pub mod MissingBlocks
pub mod Budget
