-- ===== src/World/State.antt =====
-- player/player.hpp and world/world.hpp: the players of the world, and the world itself.
pub mod Collections
pub mod MapData
pub mod Registry
use gtproxy.Prelude.{
  ℕ, Bool, true, false, not, ◌&&◌, List, [], ◌∷◌, ◌++◌, Option, none, some, Bytes, ltb, ◌==◌,
  if◌then◌else◌,
}
use gtproxy.Prelude.Int.{ℤ, pos, negsuc, int_eq}
use gtproxy.Utils.ByteStream.{
  Reader, Outcome, done, fault, ◌>>=◌, ◌>>◌, return, of_span, read_into, read_string_into,
  skip_bytes,
}
use gtproxy.World.Tile.{ItemTypes}
use gtproxy.World.TileMap
use gtproxy.World.TileMap.{TileMap, new_tile_map}
use gtproxy.World.ObjectMap
use gtproxy.World.ObjectMap.{ObjectMap, new_object_map}
use gtproxy.World.TileExtra.Kinds.{Junk}

pub record Player : Type 0 where
  pub net_id : ℤ
  pub user_id : ℤ
  pub name : Bytes
  pub country_code : Bytes
  pub position : List ℤ
  pub collision : List ℤ
  pub invisible : ℤ
  pub mod_state : ℤ
  pub supermod_state : ℤ
  pub is_local : Bool

-- `World`; the map of players is an association list, each key once.
pub record World : Type 0 where
  pub players : List (ℤ × Player)
  pub local_net_id : ℤ
  pub version : ℕ
  pub name : Bytes
  pub tile_map : TileMap
  pub object_map : ObjectMap

abbrev pub minus_one : ℤ
minus_one = negsuc 0

abbrev pub new_world : World
new_world = record {
  players = [];
  local_net_id = minus_one;
  version = 0;
  name = [];
  tile_map = new_tile_map;
  object_map = new_object_map;
}

-- `players_[key] = player`
unfoldable pub assign : ℤ → Player → List (ℤ × Player) → List (ℤ × Player)
assign key player [] = (key, player) ∷ []
assign key player ((k, p) ∷ players) =
    if int_eq k key then (k, player) ∷ players else (k, p) ∷ assign key player players

-- `players_.erase(key)`
unfoldable pub erase : ℤ → List (ℤ × Player) → List (ℤ × Player)
erase key [] = []
erase key ((k, p) ∷ players) = if int_eq k key then players else (k, p) ∷ erase key players

unfoldable pub find : ℤ → List (ℤ × Player) → Option Player
find key [] = none
find key ((k, p) ∷ players) = if int_eq k key then some p else find key players

unfoldable pub add_player : Player → World → World
unfolding assign
add_player player w = record w {
  players = assign player.net_id player w.players;
  local_net_id = if player.is_local then player.net_id else w.local_net_id;
}

unfoldable pub remove_player : ℤ → World → World
unfolding erase
remove_player net_id w =
    if int_eq net_id w.local_net_id then w else record w { players = erase net_id w.players }

-- `clear` leaves the version and the name.
unfoldable pub clear : World → World
clear w = record w {
  players = [];
  local_net_id = minus_one;
  tile_map = new_tile_map;
  object_map = new_object_map;
}

unfoldable pub get_player : ℤ → World → Option Player
unfolding find
get_player net_id w = find net_id w.players

abbrev pub is_negative : ℤ → Bool
is_negative (pos n) = false
is_negative (negsuc n) = true

unfoldable pub get_local_player : World → Option Player
unfolding get_player
get_local_player w = if is_negative w.local_net_id then none else get_player w.local_net_id w

-- The body of `World::serialize`, from the name on and whole.
abbrev pub read_named : ItemTypes → Junk → World → ℕ → Reader World
read_named item_types junk w version = do
  name ← read_string_into 2 w.name
  tile_map ← TileMap.serialize item_types junk version w.tile_map
  object_map ← ObjectMap.serialize w.object_map
  return (record w { version = version; name = name; tile_map = tile_map; object_map = object_map })

unfoldable pub read_world : ItemTypes → Junk → World → Reader World
read_world item_types junk w = do
  version ← read_into 2 w.version
  skip_bytes 4
  read_named item_types junk w version

-- `World::serialize` on bytes; the null pointer, for which it does nothing, has no model here.
unfoldable pub serialize : ItemTypes → Junk → World → Bytes → Outcome World
unfolding read_world of_span
serialize item_types junk w extended_data = read_world item_types junk w (of_span extended_data)
