-- ===== src/Types.antt =====
-- srad-types, and the message types of srad-client.
pub mod Text
pub mod Payload
pub mod DataType
pub mod Properties
pub mod Arrays
pub mod Booleans
pub mod DataSets
pub mod Topic
pub mod Message
mod Tests
pub mod Templates
