-- ===== src/Packet.antt =====
-- The modules of packet/.
pub mod Variant
pub mod Types
pub mod Payload
pub mod Ids
pub mod TextPackets
pub mod GamePackets
pub mod CallPackets
pub mod Registry
pub mod Helper
pub mod Decoder
pub mod WorldPackets
