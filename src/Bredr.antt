-- ===== src/Bredr.antt =====
-- The BR/EDR part of src/core/protocol: the codec, the bitstream decoder, and the link with the
-- recovery of its clock.
pub mod Packed
pub mod Fec13
pub mod Fec23
pub mod Whitening
pub mod PayloadCrc
pub mod Types
pub mod Hec
pub mod SyncWord
pub mod Air
pub mod Acl
pub mod Sync
pub mod Decode
pub mod Bitstream
pub mod Link
pub mod Recovery
mod Tests
mod PacketTests
mod StreamTests
