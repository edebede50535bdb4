-- ===== src/Message.antt =====
-- message/: options, their wire form and the values in them.
pub mod Fault
pub mod Writer
pub mod Uint32
pub mod Defs
pub mod Record
pub mod Marshal
pub mod Wire
pub mod Unmarshal
pub mod RoundTrip
pub mod Reading
pub mod Search
pub mod Edit
pub mod Access
pub mod Path
pub mod Capacity
pub mod Clone
