-- ===== src/Eon.antt =====
-- srad-eon: the edge node and its devices.
pub mod Ids
pub mod Templates
pub mod Birth
pub mod State
pub mod Device
pub mod DeviceMap
pub mod Node
pub mod Session
pub mod Run
pub mod Sequence
mod Tests
