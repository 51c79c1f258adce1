-- ===== src/Tests.antt =====
-- A concrete reader, commands and maps, and each theorem with conditions at one of them.
pub mod Reader
pub mod Samples
pub mod Codec
pub mod Objects
pub mod Map
pub mod Slots
pub mod Invocations
pub mod Reused
pub mod Pools
pub mod Serving
pub mod Workers
pub mod Connections
pub mod Numbered
