-- ===== src/Ble.antt =====
-- The Bluetooth LE part of src/core/protocol: the codec, the framing of bits and the registry.
pub mod Whiten
pub mod Crc
pub mod CrcInit
pub mod Frame
pub mod Channels
pub mod ConnectInd
pub mod AdvInfo
pub mod Registry
pub mod Bitstream
mod Tests
mod RegistryTests
