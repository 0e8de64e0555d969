-- ===== src/Packet/GamePackets/Kinds.antt =====
-- packet/game/ and packet_id.hpp: the kind of packet that each `write` makes.
use gtproxy.Prelude.{
  ◌≡◌, sym, ap, Bytes, [], Bool, true, false, Option, none, some, ◌==◌, if◌then◌else◌,
}
use gtproxy.Utils.Zlib.{Deflate, compress_zlib}
use gtproxy.Utils.TextParse.{is_empty}
use gtproxy.Packet.Types.{GameUpdatePacket}
use gtproxy.Packet.Payload.{GamePayload, Payload, game, game_payload, default_payload}
use gtproxy.Packet.Ids.{PacketId, derive_game_id, game_packet_id}
use gtproxy.Packet.GamePackets.{
  GamePacket, disconnect, send_map_data, send_tile_update_data, send_inventory_state,
  send_item_database_data, modify_item_inventory, tile_change_request, item_change_object,
  write_game, write_item_database_data, write_modify_item_inventory, write_tile_change_request,
  write_item_change_object,
}

-- The kind that `write` gives a packet: a TileChangeRequest and an ItemChangeObject keep the type 0.
unfoldable pub written_id : GamePacket → PacketId
written_id disconnect = PacketId.disconnect
written_id (send_map_data extra) = PacketId.send_map_data
written_id (send_tile_update_data extra) = PacketId.send_tile_update_data
written_id (send_inventory_state extra) = PacketId.send_inventory_state
written_id (send_item_database_data items_dat) = PacketId.send_item_database_data
written_id (modify_item_inventory p) = PacketId.modify_item_inventory
written_id (tile_change_request p) = PacketId.unknown
written_id (item_change_object p) = PacketId.unknown

payload_id : Payload → PacketId
payload_id (game p) = derive_game_id p
payload_id p = PacketId.unknown

same :
    (p : GameUpdatePacket) (extra : Bytes) (d : GamePayload)
    → game_payload p extra ≡ game d
    → derive_game_id d ≡ game_packet_id p.type
unfolding derive_game_id payload_id
same p extra d e = sym (ap payload_id e)

one_of :
    (b : Bool) (p : GameUpdatePacket) (extra : Bytes) (d : GamePayload)
    → (if b then default_payload else game_payload p extra) ≡ game d
    → derive_game_id d ≡ game_packet_id p.type
one_of true p extra d e = absurd (cc e)
one_of false p extra d e = same p extra d e

compressed :
    (o : Option Bytes) (p : GameUpdatePacket) (d : GamePayload)
    → (elim o [ none ↦ default_payload | some extra ↦ game_payload p extra ]) ≡ game d
    → derive_game_id d ≡ game_packet_id p.type
compressed none p d e = absurd (cc e)
compressed (some extra) p d e = same p extra d e

-- If `write` of a packet gives a game payload, packet_id.hpp takes it for the packet's own class, but a
-- TileChangeRequest and an ItemChangeObject for an unknown packet.
pub derive_game_id-write_game :
    (deflate : Deflate) (p : GamePacket) (d : GamePayload)
    → write_game deflate p ≡ game d
    → derive_game_id d ≡ written_id p
unfolding write_game written_id game_packet_id write_item_database_data write_modify_item_inventory
    write_tile_change_request write_item_change_object
derive_game_id-write_game deflate disconnect d e = same _ _ d e
derive_game_id-write_game deflate (send_map_data extra) d e = one_of (is_empty extra) _ extra d e
derive_game_id-write_game deflate (send_tile_update_data extra) d e =
    one_of (is_empty extra) _ extra d e
derive_game_id-write_game deflate (send_inventory_state extra) d e =
    one_of (is_empty extra) _ extra d e
derive_game_id-write_game deflate (send_item_database_data items_dat) d e =
    compressed (compress_zlib deflate items_dat) _ d e
derive_game_id-write_game deflate (modify_item_inventory p) d e = one_of (p.item_id == 0) _ [] d e
derive_game_id-write_game deflate (tile_change_request p) d e = one_of (p.item_id == 0) _ [] d e
derive_game_id-write_game deflate (item_change_object p) d e = one_of (p.item_id == 0) _ [] d e
