-- ===== src/Utils.antt =====
-- The modules of utils/.
pub mod ByteStream
pub mod TextParse
pub mod Zlib
pub mod Network
pub mod Hash
