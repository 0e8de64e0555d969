-- ===== src/World.antt =====
-- The modules of world/.
pub mod TileExtra
pub mod Tile
pub mod TileMap
pub mod ObjectMap
pub mod State
