-- ===== src/Packet/WorldPackets.antt =====
-- packet/game/world.hpp: what the packets about the world take from their payload.
use gtproxy.Prelude.{
  bytes, ℕ, ◌%◌, ◌^◌, List, [], ◌∷◌, Option, none, some, Bytes, ltb, if◌then◌else◌, length,
}
use gtproxy.Prelude.Int.{ℤ, pos, negsuc}
use gtproxy.Utils.TextParse.{TextParse, parse, get, get_int, contains}
use gtproxy.Packet.Variant.{Variant, get_string}
use gtproxy.Packet.Types.{GameUpdatePacket}
use Prim.Native.String.{String}

pub record OnSpawn : Type 0 where
  pub spawn : Bytes
  pub net_id : ℤ
  pub user_id : ℤ
  pub country_code : Bytes
  pub name : Bytes
  pub position : List ℤ
  pub collision : List ℤ
  pub invisible : ℤ
  pub mod_state : ℤ
  pub supermod_state : ℤ
  pub online_id : ℤ
  pub type : Bytes
  pub title_icon : Bytes

abbrev int_field : TextParse → String → ℕ → ℤ
int_field parser key index = get_int parser (bytes key) (pos index)

abbrev text_field : TextParse → String → Bytes
text_field parser key = get parser (bytes key) (pos 0)

abbrev bar : Bytes
bar = b'|' ∷ []

unfoldable pub spawn_of : TextParse → OnSpawn
unfolding get get_int
spawn_of parser = record {
  spawn = text_field parser "spawn";
  net_id = int_field parser "netID" 0;
  user_id = int_field parser "userID" 0;
  country_code = text_field parser "country";
  name = text_field parser "name";
  position = int_field parser "posXY" 0 ∷ int_field parser "posXY" 1 ∷ [];
  collision =
      int_field parser "colrect" 0
      ∷ int_field parser "colrect" 1
      ∷ int_field parser "colrect" 2
      ∷ int_field parser "colrect" 3
      ∷ [];
  invisible = int_field parser "invis" 0;
  mod_state = int_field parser "mstate" 0;
  supermod_state = int_field parser "smstate" 0;
  online_id = int_field parser "onlineID" 0;
  type = text_field parser "type";
  title_icon = text_field parser "titleIcon";
}

-- `OnSpawn::read` on the values of a VariantPayload; `none` is the result false.
unfoldable pub read_on_spawn : List Variant → Option OnSpawn
unfolding spawn_of parse get_string
read_on_spawn variant =
    if ltb (length variant) 2 then none else some (spawn_of (parse (get_string variant 1) bar))

pub record OnRemove : Type 0 where
  pub net_id : ℤ
  pub player_id : ℤ

abbrev int_or : TextParse → String → ℤ → ℤ
int_or parser key old = if contains parser (bytes key) then int_field parser key 0 else old

-- `OnRemove::read` on a new packet, whose ids are -1 and 0.
unfoldable pub read_on_remove : List Variant → Option OnRemove
unfolding parse get get_int contains get_string
read_on_remove variant =
    if ltb (length variant) 3
    then none
    else some (record {
      net_id = int_or (parse (get_string variant 1) bar) "netID" (negsuc 0);
      player_id = int_or (parse (get_string variant 2) bar) "pId" (pos 0);
    })

-- The coordinates and the item are bit patterns of int32_t.
pub record TileChangeRequest : Type 0 where
  pub int_x : ℕ
  pub int_y : ℕ
  pub item_id : ℕ

unfoldable pub read_tile_change_request : GameUpdatePacket → TileChangeRequest
read_tile_change_request p = record { int_x = p.int_x; int_y = p.int_y; item_id = p.item_net_id }

-- Members of 16 bits, and `object_change_type` of 8.
pub record ItemChangeObject : Type 0 where
  pub pos_x : ℕ
  pub pos_y : ℕ
  pub item_id : ℕ
  pub amount : ℕ
  pub object_change_type : ℕ
  pub item_net_id : ℕ

-- `object_change_type` and `item_id` are in unions with `net_id` and `int_data`.
unfoldable pub read_item_change_object : GameUpdatePacket → ItemChangeObject
read_item_change_object p = record {
  pos_x = p.int_x % 2 ^ 16;
  pos_y = p.int_y % 2 ^ 16;
  item_id = p.int_data % 2 ^ 16;
  amount = p.int_data % 2 ^ 16;
  object_change_type = p.net_id % 2 ^ 8;
  item_net_id = p.item_net_id % 2 ^ 16;
}
