-- ===== src/Core/WorldHandler.antt =====
-- core/handlers/world_handler.cpp: what each packet does to the world.
pub mod Objects
pub mod Runs
use gtproxy.Prelude.{
  bytes, ℕ, zero, suc, map, ◌+◌, ◌*◌, ◌%◌, ◌^◌, Bool, true, false, not, List, [], ◌∷◌, ◌++◌, Option,
  none, some, Bytes, ltb, leb, ◌==◌, if◌then◌else◌, length, get_elem?, str_eq,
}
use gtproxy.Prelude.Int.{ℤ, pos, negsuc, int_eq}
use gtproxy.Utils.TextParse.{is_empty}
use gtproxy.Utils.ByteStream.{Outcome, done, fault, of_span}
use gtproxy.Packet.WorldPackets.{OnSpawn, OnRemove, TileChangeRequest, ItemChangeObject}
use gtproxy.World.Tile
use gtproxy.World.Tile.{Tile, ItemTypes, new_tile}
use gtproxy.World.TileMap.{TileMap}
use gtproxy.World.ObjectMap.{Object, ObjectMap, increment_drop_id}
use gtproxy.World.TileExtra.Kinds.{Junk}
use gtproxy.World.State.{World, Player, add_player, remove_player, clear}
use gtproxy.World.State

pub data Direction : Type 0 where
  client_bound server_bound : Direction

-- The packets that have a handler here. The two with extra data carry it as bytes.
pub data Packet : Type 0 where
  join_request : Packet
  on_spawn : OnSpawn → Packet
  on_remove : OnRemove → Packet
  send_map_data : Bytes → Packet
  send_tile_update_data : Bytes → Packet
  tile_change_request : TileChangeRequest → Packet
  item_change_object : ItemChangeObject → Packet

-- `Player::from_on_spawn`; the coordinates pass through a float, which is the argument.
unfoldable pub from_on_spawn : (ℤ → ℤ) → OnSpawn → Player
from_on_spawn via_float pkt = record {
  net_id = pkt.net_id;
  user_id = pkt.user_id;
  name = pkt.name;
  country_code = pkt.country_code;
  position = map via_float pkt.position;
  collision = map via_float pkt.collision;
  invisible = pkt.invisible;
  mod_state = pkt.mod_state;
  supermod_state = pkt.supermod_state;
  is_local = str_eq pkt.type (bytes "local");
}

-- The tile at an index, with the foreground punched away, or else the background.
unfoldable pub punch : Tile → Tile
punch tile =
    if not (tile.foreground == 0)
    then record tile { foreground = 0 }
    else record tile { background = 0 }

unfoldable pub punch_at : ℕ → List Tile → List Tile
unfolding punch
punch_at i [] = []
punch_at zero (t ∷ ts) = punch t ∷ ts
punch_at (suc i) (t ∷ ts) = t ∷ punch_at i ts

-- The index, converted to std::uint32_t. Where the sum or the product leaves the range of int, which the
-- language does not define, it is taken to wrap.
unfoldable pub tile_index : TileChangeRequest → TileMap → ℕ
tile_index pkt m = (pkt.int_x + pkt.int_y * m.size_x) % 2 ^ 32

abbrev pub fist : ℕ
fist = 18

unfoldable pub change_tile : TileChangeRequest → TileMap → TileMap
unfolding punch_at
change_tile pkt m =
    if leb (length m.tiles) (tile_index pkt m)
    then m
    else if pkt.item_id == fist
    then record m { tiles = punch_at (tile_index pkt m) m.tiles }
    else m

-- The three branches of the handler of ItemChangeObject. The positions are small enough for the float
-- that they pass through.
unfoldable drop_object : ItemChangeObject → ObjectMap → ObjectMap
unfolding increment_drop_id
drop_object pkt m =
    let counted = increment_drop_id m in
    record counted {
      objects =
          counted.objects
          ++ (record {
            item_id = pkt.item_id;
            pos_x = pkt.pos_x;
            pos_y = pkt.pos_y;
            amount = pkt.amount % 2 ^ 8;
            flags = 0;
            object_id = counted.drop_id;
          })
            ∷ [];
    }

unfoldable update_first : ItemChangeObject → List Object → List Object
update_first pkt [] = []
update_first pkt (o ∷ os) =
    if o.object_id == pkt.item_net_id
    then record o {
      pos_x = pkt.pos_x;
      pos_y = pkt.pos_y;
      item_id = pkt.item_id;
      amount = pkt.amount % 2 ^ 8;
    }
      ∷ os
    else o ∷ update_first pkt os

-- `std::remove_if` and `erase`.
unfoldable pub take_objects : ℕ → List Object → List Object
take_objects id [] = []
take_objects id (o ∷ os) =
    let rest = take_objects id os in if o.object_id == id then rest else o ∷ rest

-- `object_change_type` is a std::uint8_t, promoted to int by the comparisons.
unfoldable pub change_object : ItemChangeObject → ObjectMap → ObjectMap
unfolding drop_object update_first take_objects int_eq
change_object pkt m =
    if int_eq (pos pkt.object_change_type) (negsuc 0)
    then drop_object pkt m
    else if int_eq (pos pkt.object_change_type) (negsuc 2)
    then record m { objects = update_first pkt m.objects }
    else record m { objects = take_objects pkt.item_net_id m.objects }

-- Reading a tile update leaves the world alone, if it comes to an end.
abbrev checked {ℓ} : {A : Type ℓ} → Outcome A → World → Option World
checked (done a t) w = some w
checked fault w = none

abbrev pub result : Outcome World → Option World
result (done w t) = some w
result fault = none

-- One packet; `none` is an access out of bounds or through a null pointer.
module _ (item_types : ItemTypes) (junk : Junk) (via_float : ℤ → ℤ) where
  unfoldable pub handle : Direction → Packet → World → Option World
  unfolding clear add_player remove_player from_on_spawn change_tile change_object
  handle server_bound join_request w = some (clear w)
  handle client_bound (on_spawn pkt) w = some (add_player (from_on_spawn via_float pkt) w)
  handle client_bound (on_remove pkt) w = some (remove_player pkt.net_id w)
  handle client_bound (send_map_data extra) w =
      if is_empty extra then some w else result (State.serialize item_types junk w extra)
  handle client_bound (send_tile_update_data extra) w =
      if is_empty extra
      then some w
      else checked (Tile.serialize item_types junk w.version new_tile (of_span extra)) w
  handle direction (tile_change_request pkt) w =
      some (record w { tile_map = change_tile pkt w.tile_map })
  handle client_bound (item_change_object pkt) w =
      some (record w { object_map = change_object pkt w.object_map })
  handle direction pkt w = some w

  -- The packets of a session, in order.
  unfoldable pub handle_all : List (Direction × Packet) → World → Option World
  unfolding handle
  handle_all [] w = some w
  handle_all ((direction, pkt) ∷ rest) w = elim (handle direction pkt w) [
    | none ↦ none
    | some v ↦ handle_all rest v
  ]
