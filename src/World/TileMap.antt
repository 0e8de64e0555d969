-- ===== src/World/TileMap.antt =====
-- world/tile_map.hpp: the tiles of a world.
use gtproxy.Prelude.{ℕ, List, [], ◌∷◌, ◌++◌, take, replicate}
use gtproxy.Utils.ByteStream.{Reader, ◌>>=◌, ◌>>◌, return, read_into, skip_bytes}
use gtproxy.World.Tile
use gtproxy.World.Tile.{Tile, ItemTypes, new_tile}
use gtproxy.World.TileExtra.Kinds.{Junk}

-- `size_` and `tiles_`; the coordinates are the bit patterns of two int32_t.
pub record TileMap : Type 0 where
  pub size_x : ℕ
  pub size_y : ℕ
  pub tiles : List Tile

abbrev pub new_tile_map : TileMap
new_tile_map = record { size_x = 0; size_y = 0; tiles = [] }

-- `tiles_.resize(count)`: the first tiles stay as they were.
unfoldable pub resize_tiles : ℕ → List Tile → List Tile
resize_tiles count tiles = take count (tiles ++ replicate count new_tile)

-- The loop that reads every tile in place.
unfoldable pub serialize_tiles : ItemTypes → Junk → ℕ → List Tile → Reader (List Tile)
serialize_tiles item_types junk version [] = return []
serialize_tiles item_types junk version (tile ∷ tiles) = do
  t ← Tile.serialize item_types junk version tile
  ts ← serialize_tiles item_types junk version tiles
  return (t ∷ ts)

-- `serialize` behind the size and the count.
abbrev pub serialize_counted : ItemTypes → Junk → ℕ → TileMap → ℕ → ℕ → ℕ → Reader TileMap
serialize_counted item_types junk version old x y count = do
  tiles ← serialize_tiles item_types junk version (resize_tiles count old.tiles)
  return (record { size_x = x; size_y = y; tiles = tiles })

unfoldable pub serialize : ItemTypes → Junk → ℕ → TileMap → Reader TileMap
unfolding resize_tiles serialize_tiles
serialize item_types junk version old = do
  x ← read_into 4 old.size_x
  y ← read_into 4 old.size_y
  count ← read_into 4 0
  skip_bytes 5
  serialize_counted item_types junk version old x y count
