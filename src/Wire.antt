-- ===== src/Wire.antt =====
-- internal/wire: the boundary that the protocol writers share.
pub mod Field
pub mod Model
pub mod Names
pub mod Values
pub mod Descriptors
pub mod Widths
pub mod Shapes
pub mod Sizes
pub mod Preflight
pub mod Cursor
pub mod Stream
pub mod Encode
pub mod Netflow5
pub mod Netflow9
pub mod Ipfix
mod Runs
