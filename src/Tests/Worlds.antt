-- ===== src/Tests/Worlds.antt =====
-- World, its tiles and objects, and the packet handlers on a concrete world.
use gtproxy.Prelude.{
  ◌≡◌, refl, arith, true, false, inl, List, [], ◌∷◌, ◌++◌, some, length, replicate,
}
use gtproxy.Prelude.Int.{pos, int_eq}
use gtproxy.Utils.ByteStream.{done, to_le, of_span, get_data, get_size}
use gtproxy.Utils.ByteStream.Reads.{advance}
use gtproxy.Packet.Types.{GameUpdatePacket, zero_packet}
use gtproxy.Packet.WorldPackets.{TileChangeRequest, read_item_change_object}
use gtproxy.World.TileExtra
use gtproxy.World.TileExtra.Data.{Extra, monostate, lock, sign}
use gtproxy.World.TileExtra.Kinds.{Junk}
use gtproxy.World.TileExtra.Wire.{wire}
use gtproxy.World.TileExtra.Reading.{serialize-wire}
use gtproxy.World.Tile
use gtproxy.World.Tile.{Tile, ItemTypes, new_tile, has_flag, flag_extra}
use gtproxy.World.Tile.Wire.{Record, TileFits, tile_bytes, serialize-tile_bytes}
use gtproxy.World.TileMap.{TileMap}
use gtproxy.World.ObjectMap.{Object}
use gtproxy.World.State
use gtproxy.World.State.{Player, World, new_world, add_player, remove_player, get_player, minus_one}
use gtproxy.World.State.MapData.{MapData, map_bytes, MapFits, world_of, serialize-map_bytes}
use gtproxy.World.State.Registry.{new_world-Inv}
use gtproxy.Core.WorldHandler.{
  Direction, Packet, client_bound, server_bound, join_request, on_remove, item_change_object,
  handle_all, change_object,
}
use gtproxy.Core.WorldHandler.Objects.{without, change_object-removes}
use gtproxy.Core.WorldHandler.Runs.{Holds, handle_all-Inv}

-- Every item is of type 17, which carries no data of its own.
abbrev plain_items : ItemTypes
plain_items fg = some 17

abbrev zeros : Junk
zeros i = 0

abbrev small_lock : Extra
small_lock = lock 1 77 (5 ∷ 6 ∷ [])

serialize-wire_example :
    TileExtra.serialize zeros 20 202 0
      (record { type = 0; contents = monostate })
      (of_span ((to_le 1 3 ++ wire 202 20 (replicate 8 0) small_lock) ++ []))
    ≡ done
        (record { type = 3; contents = small_lock })
        (advance
          (length (to_le 1 3 ++ wire 202 20 (replicate 8 0) small_lock))
          (of_span ((to_le 1 3 ++ wire 202 20 (replicate 8 0) small_lock) ++ [])))
unfolding of_span to_le get_data get_size
serialize-wire_example =
    serialize-wire zeros 20 202 (replicate 8 0) monostate 0 0 small_lock
      (omega arith, omega arith, omega arith, (omega arith, (omega arith, tt)), refl)
      (of_span ((to_le 1 3 ++ wire 202 20 (replicate 8 0) small_lock) ++ [])) []
      (refl, refl, omega arith)

abbrev sign_tile : Record
sign_tile = record {
  tile = record {
    foreground = 20;
    background = 14;
    parent_tile = 0;
    flag = 1;
    lock_parent_tile = 0;
    extra = record { type = 2; contents = sign (b'h' ∷ b'i' ∷ []) 4294967295 };
  };
  present = true;
  pad = [];
}

sign_tile-TileFits : TileFits plain_items zeros 20 new_tile sign_tile
unfolding has_flag
sign_tile-TileFits = record {
  fg_half = omega arith;
  bg_half = omega arith;
  parent_half = omega arith;
  flag_half = omega arith;
  lock_half = omega arith;
  not_locked = λ p. refl;
  carries = inl (refl, refl);
  with_data = λ p. (refl, (omega arith, omega arith));
  without_data = λ p. cc;
}

serialize-tile_bytes_example :
    Tile.serialize plain_items zeros 20 new_tile (of_span (tile_bytes 20 sign_tile ++ []))
    ≡ done sign_tile.tile
        (advance (length (tile_bytes 20 sign_tile)) (of_span (tile_bytes 20 sign_tile ++ [])))
unfolding of_span to_le has_flag get_data get_size
serialize-tile_bytes_example =
    serialize-tile_bytes plain_items zeros 20 new_tile sign_tile sign_tile-TileFits
      (of_span (tile_bytes 20 sign_tile ++ [])) [] (refl, refl, omega arith)

abbrev gem : Object
gem = record { item_id = 112; pos_x = 0; pos_y = 0; amount = 5; flags = 0; object_id = 1 }

abbrev small_map : MapData
small_map = record {
  version = 20;
  name = b'A' ∷ b'B' ∷ [];
  size_x = 1;
  size_y = 1;
  tiles = sign_tile ∷ [];
  object_map = record { drop_id = 1; objects = gem ∷ [] };
  gap_4 = replicate 4 0;
  gap_5 = replicate 5 0;
  gap_12 = replicate 12 0;
}

small_map-MapFits : MapFits plain_items zeros small_map
small_map-MapFits = record {
  version_half = omega arith;
  name_text = omega arith;
  x_word = omega arith;
  y_word = omega arith;
  tiles_word = omega arith;
  tiles_fit = (sign_tile-TileFits, tt);
  objects_word = omega arith;
  drop_word = omega arith;
  objects_fit = (
    record {
      item_half = omega arith;
      x_word = omega arith;
      y_word = omega arith;
      amount_byte = omega arith;
      flags_byte = omega arith;
      id_word = omega arith;
    },
    tt,
  );
  gap_4_size = refl;
  gap_5_size = refl;
  gap_12_size = refl;
}

serialize-map_bytes_example :
    State.serialize plain_items zeros new_world (map_bytes small_map)
    ≡ done
        (world_of small_map new_world)
        (advance (length (map_bytes small_map)) (of_span (map_bytes small_map)))
unfolding to_le has_flag
serialize-map_bytes_example =
    serialize-map_bytes plain_items zeros small_map new_world small_map-MapFits refl refl
      (omega arith)

abbrev ada : Player
ada = record {
  net_id = pos 1;
  user_id = pos 500;
  name = b'a' ∷ [];
  country_code = [];
  position = [];
  collision = [];
  invisible = pos 0;
  mod_state = pos 0;
  supermod_state = pos 0;
  is_local = true;
}

abbrev bob : Player
bob = record ada { net_id = pos 2; name = b'b' ∷ []; is_local = false }

abbrev pair_world : World
pair_world = record new_world { players = (pos 1, ada) ∷ (pos 2, bob) ∷ []; local_net_id = pos 1 }

two_added : add_player bob (add_player ada new_world) ≡ pair_world
unfolding add_player int_eq
two_added = refl

-- A server's change of kind 255, -1 as eight bits.
abbrev drop_packet : GameUpdatePacket
drop_packet = record zero_packet { net_id = 4294967295; item_net_id = 1; int_data = 112 }

change_object-removes_example :
    change_object (read_item_change_object drop_packet) small_map.object_map
    ≡ record { drop_id = 1; objects = without 1 small_map.object_map.objects }
change_object-removes_example = change_object-removes drop_packet small_map.object_map

-- So the dropped item does not appear, and the gem with id 1 is gone.
gem_gone :
    change_object (read_item_change_object drop_packet) small_map.object_map
    ≡ record { drop_id = 1; objects = [] }
unfolding change_object read_item_change_object
gem_gone = refl

abbrev one_tile : TileMap
one_tile = record { size_x = 1; size_y = 1; tiles = sign_tile.tile ∷ [] }

abbrev punch_request : TileChangeRequest
punch_request = record { int_x = 0; int_y = 0; item_id = 18 }

abbrev session : List (Direction × Packet)
session =
    (server_bound, join_request)
    ∷ (client_bound, on_remove (record { net_id = pos 1; player_id = pos 0 }))
    ∷ (client_bound, item_change_object (read_item_change_object drop_packet))
    ∷ []

handle_all-Inv_example : Holds (handle_all plain_items zeros (λ z. z) session new_world)
handle_all-Inv_example = handle_all-Inv plain_items zeros (λ z. z) session new_world new_world-Inv
