-- ===== src/World/State/MapData.antt =====
-- The bytes of a whole world, as SendMapData carries them, and reading them back.
use gtproxy.Utils.ByteStream.Fields.{Word, Text, Half, u16_then}
use gtproxy.Prelude.{ℕ, ◌<◌, ◌≡◌, sym, List, [], ◌++◌, Bytes, length, subst, append-nil}
use gtproxy.Utils.ByteStream.{done, to_le, of_span, size_mod, read_string_into, skip_bytes}
use gtproxy.Utils.ByteStream.Reads.{
  Reads, Reads-bind, Reads-map, Reads-string, At, At-of_span, advance, prefixed,
}
use gtproxy.World.Tile.{ItemTypes}
use gtproxy.World.Tile.Wire.{Record}
use gtproxy.World.TileMap.{TileMap, serialize_tiles, resize_tiles, new_tile_map}
use gtproxy.World.TileMap
use gtproxy.World.ObjectMap.{
  Object, ObjectMap, new_object, new_object_map, serialize_object, serialize_objects,
  resize_objects,
}
use gtproxy.World.ObjectMap
use gtproxy.World.TileExtra.Kinds.{Junk}
use gtproxy.World.TileExtra.Parts.{skip_exactly}
use gtproxy.World.State.Collections.{
  tiles_of, AllFit, tile_map_bytes, Reads-tile_map, ObjectsFit, object_map_bytes, Reads-object_map,
}
use gtproxy.World.State.{World, read_world, read_named, serialize}

-- The whole of the map data.
pub record MapData : Type 0 where
  pub version : ℕ
  pub name : Bytes
  pub size_x : ℕ
  pub size_y : ℕ
  pub tiles : List Record
  pub object_map : ObjectMap
  pub gap_4 : Bytes
  pub gap_5 : Bytes
  pub gap_12 : Bytes

abbrev pub map_bytes : MapData → Bytes
map_bytes d =
    to_le 2 d.version
    ++ (d.gap_4
        ++ (prefixed 2 d.name
            ++ (tile_map_bytes d.version d.size_x d.size_y d.gap_5 d.tiles
                ++ object_map_bytes d.gap_12 d.object_map)))

pub record MapFits (item_types : ItemTypes) (junk : Junk) (d : MapData) : Type 0 where
  pub version_half : Half d.version
  pub name_text : Text d.name
  pub x_word : Word d.size_x
  pub y_word : Word d.size_y
  pub tiles_word : Word (length d.tiles)
  pub tiles_fit : AllFit item_types junk d.version d.tiles
  pub objects_word : Word (length d.object_map.objects)
  pub drop_word : Word d.object_map.drop_id
  pub objects_fit : ObjectsFit d.object_map.objects
  pub gap_4_size : length d.gap_4 ≡ 4
  pub gap_5_size : length d.gap_5 ≡ 5
  pub gap_12_size : length d.gap_12 ≡ 12

-- The world that the map data describes; players and the local player are as before.
abbrev pub world_of : MapData → World → World
world_of d w = record w {
  version = d.version;
  name = d.name;
  tile_map = record { size_x = d.size_x; size_y = d.size_y; tiles = tiles_of d.tiles };
  object_map = d.object_map;
}

module _ (item_types : ItemTypes) (junk : Junk) (d : MapData) (w : World) where
  Reads-world :
      MapFits item_types junk d
      → w.tile_map ≡ new_tile_map
      → w.object_map ≡ new_object_map
      → Reads (read_world item_types junk w) (map_bytes d) (world_of d w)
  unfolding read_world
  Reads-world h tiles objects = u16_then d.version w.version _ _ _ h.version_half (
      Reads-bind (skip_bytes 4) (λ _. read_named item_types junk w d.version) d.gap_4 _ tt _
        (skip_exactly 4 d.gap_4 h.gap_4_size)
        (Reads-bind (read_string_into 2 w.name) _ (prefixed 2 d.name) _ d.name _
          (Reads-string 2 d.name w.name h.name_text)
          (Reads-bind (TileMap.serialize item_types junk d.version w.tile_map) _
            (tile_map_bytes d.version d.size_x d.size_y d.gap_5 d.tiles) _ (world_of d w).tile_map _
            (rw tiles (
              Reads-tile_map item_types junk d.version d.size_x d.size_y d.gap_5 d.tiles h.x_word
                h.y_word h.tiles_word h.gap_5_size h.tiles_fit))
            (Reads-map (ObjectMap.serialize w.object_map) _ (object_map_bytes d.gap_12 d.object_map)
              d.object_map
              (rw objects (
                Reads-object_map d.gap_12 d.object_map h.gap_12_size h.objects_word h.drop_word
                  h.objects_fit))))))

  -- Map data that fits its fields, and whose size is a std::size_t, is read into a world with
  -- empty tiles and objects exactly as it describes it, and to its end. The players and the local
  -- net id stay.
  pub serialize-map_bytes :
      MapFits item_types junk d
      → w.tile_map ≡ new_tile_map
      → w.object_map ≡ new_object_map
      → length (map_bytes d) < size_mod
      → serialize item_types junk w (map_bytes d)
        ≡ done (world_of d w) (advance (length (map_bytes d)) (of_span (map_bytes d)))
  unfolding serialize
  serialize-map_bytes h tiles objects small =
      Reads-world h tiles objects (of_span (map_bytes d)) [] (
        subst (At (of_span (map_bytes d))) (sym (append-nil (map_bytes d)))
          (At-of_span (map_bytes d) small))
