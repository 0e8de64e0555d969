-- ===== src/Packet/Registry.antt =====
-- packet/packet_registry.hpp, register_packets.hpp and generic_packets.hpp: from a payload to a packet of
-- the class that is registered for it.
use gtproxy.Prelude.{ℕ, Bool, true, false, Option, none, some, Bytes, if◌then◌else◌, [], List}
use mathlib.Core.Option
use gtproxy.Utils.TextParse.{TextParse}
use gtproxy.Utils.Zlib.{Inflate, Deflate}
use gtproxy.Packet.Types.{GameUpdatePacket, zero_packet}
use gtproxy.Packet.Variant.{Variant}
use gtproxy.Packet.WorldPackets.{
  read_tile_change_request, read_item_change_object, read_on_spawn, read_on_remove,
}
use gtproxy.Packet.Payload.{
  TextPayload, GamePayload, VariantPayload, Payload, text_payload, game_payload, variant_payload,
}
use gtproxy.Packet.Ids.{PacketId, derive_text_id, derive_game_id, derive_variant_id}
use gtproxy.Packet.TextPackets.{
  TextPacket, read_join_request, read_validate_world, read_input, read_log, write_text,
}
use gtproxy.Packet.GamePackets.{
  GamePacket, read_item_database_data, read_modify_item_inventory, write_game,
}
use gtproxy.Packet.CallPackets.{
  CallPacket, on_send_to_server, on_super_main_start, on_spawn, on_remove, read_on_send_to_server,
  read_on_super_main_start, write_call,
}

-- `IPacket`: the generic classes with all of their payload, the others with the members of the base
-- class that `read` sets.
pub data IPacket : Type 0 where
  generic_text : TextPayload → IPacket
  generic_game : GamePayload → IPacket
  generic_variant : VariantPayload → IPacket
  text_class : (text_parse : TextParse) → TextPacket → IPacket
  game_class : (game_packet : GameUpdatePacket) → GamePacket → IPacket
  call_class : (game_packet : GameUpdatePacket) (variant : List Variant) → CallPacket → IPacket

-- `register_all_packets`: all but OnNameChanged and OnChangeSkin.
unfoldable pub is_registered : PacketId → Bool
is_registered PacketId.unknown = false
is_registered PacketId.on_name_changed = false
is_registered PacketId.on_change_skin = false
is_registered _ = true

-- `read` of the class with the id, on a text payload; a class of another kind answers false.
unfoldable pub read_text : PacketId → TextParse → Option TextPacket
unfolding read_join_request read_validate_world read_input read_log
read_text PacketId.server_hello entries = some TextPacket.server_hello
read_text PacketId.quit entries = some TextPacket.quit
read_text PacketId.quit_to_exit entries = some TextPacket.quit_to_exit
read_text PacketId.join_request entries = some (read_join_request entries)
read_text PacketId.validate_world entries = some (read_validate_world entries)
read_text PacketId.input entries = some (read_input entries)
read_text PacketId.log entries = some (read_log entries)
read_text _ entries = none

-- On a game payload, with the `game_packet` that `read` sets.
unfoldable pub read_game : Inflate → PacketId → GamePayload → Option IPacket
unfolding read_item_database_data read_modify_item_inventory
read_game inflate PacketId.disconnect p = some (game_class zero_packet GamePacket.disconnect)
read_game inflate PacketId.send_map_data p =
    some (game_class zero_packet (GamePacket.send_map_data p.extra))
read_game inflate PacketId.send_tile_update_data p =
    some (game_class zero_packet (GamePacket.send_tile_update_data p.extra))
read_game inflate PacketId.send_inventory_state p =
    some (game_class zero_packet (GamePacket.send_inventory_state p.extra))
read_game inflate PacketId.send_item_database_data p =
    Option.map (game_class zero_packet) (read_item_database_data inflate p)
read_game inflate PacketId.modify_item_inventory p =
    some (game_class p.packet (read_modify_item_inventory p))
read_game inflate PacketId.tile_change_request p =
    some (game_class p.packet (GamePacket.tile_change_request (read_tile_change_request p.packet)))
read_game inflate PacketId.item_change_object p =
    some (game_class p.packet (GamePacket.item_change_object (read_item_change_object p.packet)))
read_game inflate _ p = none

-- On a call.
unfoldable pub read_call : PacketId → List Variant → Option CallPacket
unfolding read_on_send_to_server read_on_super_main_start read_on_spawn read_on_remove
read_call PacketId.on_send_to_server variant =
    Option.map on_send_to_server (read_on_send_to_server variant)
read_call PacketId.on_super_main_start variant =
    Option.map on_super_main_start (read_on_super_main_start variant)
read_call PacketId.on_spawn variant = Option.map on_spawn (read_on_spawn variant)
read_call PacketId.on_remove variant = Option.map on_remove (read_on_remove variant)
read_call _ variant = none

-- `PacketRegistry::create(payload)`; `none` is the null pointer. A RawPayload, on which the call does
-- not end, is not given to it.
module _ (breaks : ℕ → Bool) (inflate : Inflate) where
  unfoldable pub create_text : TextPayload → Option IPacket
  unfolding derive_text_id is_registered read_text
  create_text p =
      let id = derive_text_id breaks p in
      if is_registered id
      then Option.map (text_class p.entries) (read_text id p.entries)
      else some (generic_text p)

  unfoldable pub create_game : GamePayload → Option IPacket
  unfolding derive_game_id is_registered read_game
  create_game p =
      let id = derive_game_id p in
      if is_registered id then read_game inflate id p else some (generic_game p)

  unfoldable pub create_variant : VariantPayload → Option IPacket
  unfolding derive_variant_id is_registered read_call
  create_variant p =
      let id = derive_variant_id p in
      if is_registered id
      then Option.map (call_class p.game_packet p.variant) (read_call id p.variant)
      else some (generic_variant p)

-- `write` of a packet; the generic classes keep no raw bytes in it.
unfoldable pub write : Deflate → IPacket → Payload
unfolding write_text write_game write_call
write deflate (generic_text p) = text_payload p.message_type p.entries
write deflate (generic_game p) = game_payload p.packet p.extra
write deflate (generic_variant p) = variant_payload p.game_packet p.variant
write deflate (text_class entries p) = write_text p
write deflate (game_class packet p) = write_game deflate p
write deflate (call_class packet variant p) = write_call packet p

-- The `raw_data` that the packet keeps: only the generic classes set it.
unfoldable pub raw_data : IPacket → Bytes
raw_data (generic_text p) = p.raw_data
raw_data (generic_game p) = p.raw_data
raw_data (generic_variant p) = p.raw_data
raw_data _ = []
