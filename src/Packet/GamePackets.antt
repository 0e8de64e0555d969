-- ===== src/Packet/GamePackets.antt =====
-- packet/game/: the packets that are one GameUpdatePacket with extra data.
pub mod Database
pub mod Kinds
use gtproxy.Prelude.{
  ℕ, ◌%◌, ◌^◌, Bool, true, false, List, [], ◌∷◌, Option, none, some, Bytes, if◌then◌else◌, ◌==◌,
  length,
}
use gtproxy.Utils.TextParse.{is_empty}
use gtproxy.Utils.Zlib.{Inflate, Deflate, decompress_zlib, compress_zlib}
use gtproxy.Packet.Types.{GameUpdatePacket, zero_packet}
use gtproxy.Packet.WorldPackets.{
  TileChangeRequest, read_tile_change_request, ItemChangeObject, read_item_change_object,
}
use gtproxy.Packet.Payload.{GamePayload, Payload, game_payload, default_payload, minus_one_word}

pub record ModifyItemInventory : Type 0 where
  pub item_id : ℕ
  pub amount : ℕ
  pub net_id : ℕ

pub data GamePacket : Type 0 where
  disconnect : GamePacket
  send_map_data send_tile_update_data send_inventory_state : (extra : Bytes) → GamePacket
  send_item_database_data : (items_dat : Bytes) → GamePacket
  modify_item_inventory : ModifyItemInventory → GamePacket
  tile_change_request : TileChangeRequest → GamePacket
  item_change_object : ItemChangeObject → GamePacket

-- `SendItemDatabaseData::read`, into a packet whose `items_dat` is empty.
unfoldable pub read_item_database_data : Inflate → GamePayload → Option GamePacket
unfolding decompress_zlib
read_item_database_data inflate p =
    if is_empty p.extra
    then none
    else if p.packet.int_data == 0
    then none
    else let (done, items_dat) = decompress_zlib inflate p.extra [] p.packet.int_data in
      if done then some (send_item_database_data items_dat) else none

-- `item_id` and `int_data` are names of one word.
unfoldable pub read_modify_item_inventory : GamePayload → GamePacket
read_modify_item_inventory p =
    modify_item_inventory
      (record { item_id = p.packet.int_data; amount = p.packet.int_data; net_id = p.packet.net_id })

abbrev from_client : ℕ → GameUpdatePacket
from_client type = record zero_packet { type = type; net_id = minus_one_word }

abbrev with_extra : ℕ → Bytes → Payload
with_extra type extra =
    if is_empty extra then default_payload else game_payload (from_client type) extra

unfoldable pub write_item_database_data : Deflate → Bytes → Payload
unfolding compress_zlib
write_item_database_data deflate items_dat = elim (compress_zlib deflate items_dat) [
  | none ↦ default_payload
  | some compressed_data ↦
      game_payload (record (from_client 16) { int_data = length items_dat % 2 ^ 32 })
        compressed_data
]

unfoldable pub write_modify_item_inventory : ModifyItemInventory → Payload
write_modify_item_inventory p =
    if p.item_id == 0
    then default_payload
    else game_payload (record zero_packet { type = 13; int_data = p.amount; net_id = p.net_id }) []

unfoldable pub write_tile_change_request : TileChangeRequest → Payload
write_tile_change_request p =
    if p.item_id == 0
    then default_payload
    else game_payload
        (record zero_packet { int_x = p.int_x; int_y = p.int_y; item_net_id = p.item_id }) []

-- The amount is written first, and the item's id over it.
unfoldable pub write_item_change_object : ItemChangeObject → Payload
write_item_change_object p =
    if p.item_id == 0
    then default_payload
    else game_payload
        (record zero_packet {
          int_x = p.pos_x;
          int_y = p.pos_y;
          net_id = p.object_change_type;
          item_net_id = p.item_net_id;
          int_data = p.item_id;
        })
        []

unfoldable pub write_game : Deflate → GamePacket → Payload
unfolding write_item_database_data write_modify_item_inventory write_tile_change_request
    write_item_change_object
write_game deflate disconnect = game_payload (from_client 26) []
write_game deflate (send_map_data extra) = with_extra 4 extra
write_game deflate (send_tile_update_data extra) = with_extra 5 extra
write_game deflate (send_inventory_state extra) = with_extra 9 extra
write_game deflate (send_item_database_data items_dat) = write_item_database_data deflate items_dat
write_game deflate (modify_item_inventory p) = write_modify_item_inventory p
write_game deflate (tile_change_request p) = write_tile_change_request p
write_game deflate (item_change_object p) = write_item_change_object p
