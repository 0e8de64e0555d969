-- ===== src/Event/Types.antt =====
-- event/event.hpp and packet/packet_id.hpp: the numbers of the events, and which of them a packet has.
use gtproxy.Prelude.{ℕ, ◌+◌, ◌-◌, ◌%◌, ◌^◌, ◌≡◌, arith, Bool, true, false, leb, Option, none, some}
use gtproxy.Packet.Ids.{
  PacketId, server_hello, quit, quit_to_exit, join_request, validate_world, input, log,
  on_name_changed, on_change_skin, disconnect, tile_change_request, send_map_data,
  send_tile_update_data, send_item_database_data, send_inventory_state, modify_item_inventory,
  item_change_object, on_send_to_server, on_spawn, on_remove, on_super_main_start, unknown,
}
use gtproxy.Packet.TextPackets.{TextPacket}
use gtproxy.Packet.GamePackets.{GamePacket}
use gtproxy.Packet.CallPackets.{CallPacket}
use gtproxy.Packet.Registry.{
  IPacket, generic_text, generic_game, generic_variant, text_class, game_class, call_class,
}

-- The values of `enum class PacketId`.
unfoldable pub id_value : PacketId → ℕ
id_value server_hello = 0
id_value quit = 0x1001
id_value quit_to_exit = 0x1002
id_value join_request = 0x1003
id_value validate_world = 0x1004
id_value input = 0x1005
id_value log = 0x1006
id_value on_name_changed = 0x1007
id_value on_change_skin = 0x1008
id_value disconnect = 0x2001
id_value tile_change_request = 0x2002
id_value send_map_data = 0x2003
id_value send_tile_update_data = 0x2004
id_value send_item_database_data = 0x2005
id_value send_inventory_state = 0x2006
id_value modify_item_inventory = 0x2007
id_value item_change_object = 0x2008
id_value on_send_to_server = 0x3001
id_value on_spawn = 0x3002
id_value on_remove = 0x3003
id_value on_super_main_start = 0x3004
id_value unknown = 0xffff_ffff

-- The values of `enum class Type`.
abbrev pub client_connect : ℕ
client_connect = 0

abbrev pub server_connect : ℕ
server_connect = 1

abbrev pub client_disconnect : ℕ
client_disconnect = 2

abbrev pub server_disconnect : ℕ
server_disconnect = 3

abbrev pub client_bound_packet : ℕ
client_bound_packet = 4

abbrev pub server_bound_packet : ℕ
server_bound_packet = 5

abbrev packet_event_offset : ℕ
packet_event_offset = 0x1000

unfoldable is_packet_event : (type : ℕ) → Bool
is_packet_event type = leb packet_event_offset type

-- On std::uint32_t.
unfoldable pub packet_event_type : PacketId → ℕ
unfolding id_value
packet_event_type id = (packet_event_offset + id_value id) % 2 ^ 32

-- The value of the id of an event's type.
unfoldable packet_id_from_type : (type : ℕ) → ℕ
packet_id_from_type type = (type + 2 ^ 32 - packet_event_offset) % 2 ^ 32

-- `make_event_builder`: the class that the packet is cast to, by its id, and the id of the event.
pub record EventBuilder : Type 0 where
  pub packet_type : PacketId
  pub packet_type_id : PacketId

abbrev make_event_builder : (packet_type packet_type_id : PacketId) → Option EventBuilder
make_event_builder packet_type packet_type_id =
    some (record { packet_type = packet_type; packet_type_id = packet_type_id })

-- `register_packet_events`: the builder for an id, if there is one.
unfoldable pub event_builder : PacketId → Option EventBuilder
event_builder server_hello = make_event_builder server_hello server_hello
event_builder quit = make_event_builder quit quit
event_builder quit_to_exit = make_event_builder quit_to_exit quit_to_exit
event_builder join_request = make_event_builder join_request join_request
event_builder validate_world = make_event_builder validate_world validate_world
event_builder input = make_event_builder input input
event_builder log = make_event_builder log log
event_builder disconnect = make_event_builder disconnect disconnect
event_builder send_map_data = make_event_builder send_map_data send_map_data
event_builder send_tile_update_data = make_event_builder send_tile_update_data send_tile_update_data
event_builder tile_change_request = make_event_builder tile_change_request tile_change_request
event_builder item_change_object = make_event_builder item_change_object item_change_object
event_builder on_send_to_server = make_event_builder on_send_to_server on_send_to_server
event_builder on_super_main_start = make_event_builder on_super_main_start on_super_main_start
event_builder on_spawn = make_event_builder on_spawn on_spawn
event_builder on_remove = make_event_builder on_remove on_remove
event_builder send_item_database_data =
    make_event_builder send_item_database_data send_item_database_data
event_builder send_inventory_state = make_event_builder send_inventory_state send_inventory_state
event_builder modify_item_inventory = make_event_builder modify_item_inventory modify_item_inventory
event_builder _ = none

unfoldable pub has_event : PacketId → Bool
unfolding event_builder
has_event id = elim (event_builder id) [ none ↦ false | some b ↦ true ]

-- `id` of the classes.
unfoldable pub text_packet_id : TextPacket → PacketId
text_packet_id TextPacket.server_hello = server_hello
text_packet_id TextPacket.quit = quit
text_packet_id TextPacket.quit_to_exit = quit_to_exit
text_packet_id (TextPacket.join_request p) = join_request
text_packet_id (TextPacket.validate_world world_name) = validate_world
text_packet_id (TextPacket.input text) = input
text_packet_id (TextPacket.log msg) = log

unfoldable pub game_packet_class_id : GamePacket → PacketId
game_packet_class_id GamePacket.disconnect = disconnect
game_packet_class_id (GamePacket.send_map_data extra) = send_map_data
game_packet_class_id (GamePacket.send_tile_update_data extra) = send_tile_update_data
game_packet_class_id (GamePacket.send_inventory_state extra) = send_inventory_state
game_packet_class_id (GamePacket.send_item_database_data items_dat) = send_item_database_data
game_packet_class_id (GamePacket.modify_item_inventory p) = modify_item_inventory
game_packet_class_id (GamePacket.tile_change_request p) = tile_change_request
game_packet_class_id (GamePacket.item_change_object p) = item_change_object

unfoldable pub call_packet_id : CallPacket → PacketId
call_packet_id (CallPacket.on_send_to_server p) = on_send_to_server
call_packet_id (CallPacket.on_super_main_start p) = on_super_main_start
call_packet_id (CallPacket.on_spawn p) = on_spawn
call_packet_id (CallPacket.on_remove p) = on_remove
call_packet_id (CallPacket.on_name_changed net_id name) = on_name_changed
call_packet_id (CallPacket.on_change_skin net_id skin_code) = on_change_skin

unfoldable pub packet_id : IPacket → PacketId
unfolding text_packet_id game_packet_class_id call_packet_id
packet_id (generic_text p) = unknown
packet_id (generic_game p) = unknown
packet_id (generic_variant p) = unknown
packet_id (text_class entries p) = text_packet_id p
packet_id (game_class packet p) = game_packet_class_id p
packet_id (call_class packet variant p) = call_packet_id p

-- Of the type of a packet's event, the id is read back; with a builder, the type is not that of an
-- event of the connection or of a raw packet, but one that `is_packet_event` takes for a packet's.
packet_id_from_type-packet_event_type :
    (id : PacketId)
    → (packet_id_from_type (packet_event_type id) ≡ id_value id)
      × (has_event id ≡ true → is_packet_event (packet_event_type id) ≡ true)
unfolding packet_id_from_type packet_event_type id_value has_event event_builder is_packet_event
packet_id_from_type-packet_event_type id = ground arith
