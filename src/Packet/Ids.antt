-- ===== src/Packet/Ids.antt =====
-- packet/packet_id.hpp: which packet a payload is.
pub mod Patterns
use gtproxy.Prelude.{
  ℕ, Bool, true, false, ◌&&◌, ◌||◌, not, List, [], ◌∷◌, Option, none, some, Bytes, ◌==◌,
  if◌then◌else◌, length, drop, str_eq, bytes,
}
use gtproxy.Utils.TextParse.{starts_with, get_raw}
use gtproxy.Packet.Types.{GameUpdatePacket}
use gtproxy.Packet.Payload.{
  TextPayload, GamePayload, VariantPayload, Payload, text, game, call, raw, function_name,
  server_hello_message,
}

pub data PacketId : Type 0 where
  server_hello quit quit_to_exit join_request validate_world input log : PacketId
  on_name_changed on_change_skin disconnect tile_change_request send_map_data : PacketId
  send_tile_update_data send_item_database_data send_inventory_state : PacketId
  modify_item_inventory item_change_object on_send_to_server on_spawn on_remove : PacketId
  on_super_main_start unknown : PacketId

-- A pattern of the form ^literal$ or ^literal.
pub record TextPattern : Type 0 where
  pub literal : Bytes
  pub to_end : Bool
  pub id : PacketId

abbrev whole_line : Bytes → PacketId → TextPattern
whole_line literal id = record { literal = literal; to_end = true; id = id }

abbrev pub quit_pattern : TextPattern
quit_pattern = whole_line (bytes "action|quit") quit

abbrev pub quit_to_exit_pattern : TextPattern
quit_to_exit_pattern = whole_line (bytes "action|quit_to_exit") quit_to_exit

abbrev pub join_request_pattern : TextPattern
join_request_pattern = whole_line (bytes "action|join_request") join_request

abbrev pub validate_world_pattern : TextPattern
validate_world_pattern = whole_line (bytes "action|validate_world") validate_world

abbrev pub input_pattern : TextPattern
input_pattern = record { literal = bytes "action|input"; to_end = false; id = input }

abbrev pub log_pattern : TextPattern
log_pattern = whole_line (bytes "action|log") log

-- `get_text_regex_patterns`
abbrev pub text_patterns : List TextPattern
text_patterns =
    quit_pattern ∷ quit_to_exit_pattern ∷ join_request_pattern ∷ validate_world_pattern
    ∷ input_pattern ∷ log_pattern ∷ []

-- Which bytes the anchors ^ and $ take for the end of a line is a matter of the library that gives
-- std::regex: `breaks` says so.
module _ (breaks : ℕ → Bool) where
  unfoldable pub at_end : Bytes → Bool
  at_end [] = true
  at_end (c ∷ cs) = breaks c

  -- The pattern at the start of a line.
  unfoldable pub matches_here : TextPattern → Bytes → Bool
  unfolding at_end starts_with
  matches_here p str =
      starts_with p.literal str && (not p.to_end || at_end (drop (length p.literal) str))

  -- `std::regex_search`; the flag says whether a line starts here.
  unfoldable pub regex_search : TextPattern → Bool → Bytes → Bool
  unfolding matches_here
  regex_search p at_start [] = at_start && matches_here p []
  regex_search p at_start (c ∷ cs) =
      (at_start && matches_here p (c ∷ cs)) || regex_search p (breaks c) cs

  unfoldable pub search_patterns : List TextPattern → Bytes → PacketId
  unfolding regex_search
  search_patterns [] str = unknown
  search_patterns (p ∷ ps) str = if regex_search p true str then p.id else search_patterns ps str

  unfoldable pub derive_text_id : TextPayload → PacketId
  unfolding search_patterns get_raw
  derive_text_id p =
      if p.message_type == server_hello_message
      then server_hello
      else search_patterns text_patterns (get_raw p.entries (b'|' ∷ []) [])

-- `GAME_PACKET_MAP`, by the values of `enum PacketType`.
unfoldable pub game_packet_id : ℕ → PacketId
game_packet_id type =
    if type == 26
    then disconnect
    else if type == 3
    then tile_change_request
    else if type == 4
    then send_map_data
    else if type == 5
    then send_tile_update_data
    else if type == 16
    then send_item_database_data
    else if type == 9
    then send_inventory_state
    else if type == 13
    then modify_item_inventory
    else if type == 14
    then item_change_object
    else unknown

unfoldable pub derive_game_id : GamePayload → PacketId
unfolding game_packet_id
derive_game_id p = game_packet_id p.packet.type

-- `VARIANT_FUNCTION_MAP`
abbrev function_map : List (Bytes × PacketId)
function_map =
    (bytes "OnSendToServer", on_send_to_server)
    ∷ (bytes "OnSpawn", on_spawn)
    ∷ (bytes "OnRemove", on_remove)
    ∷ (bytes "OnNameChanged", on_name_changed)
    ∷ (bytes "OnChangeSkin", on_change_skin)
    ∷ (bytes "OnSuperMainStartAcceptLogonHrdxs47254722215a", on_super_main_start)
    ∷ []

unfoldable function_id : List (Bytes × PacketId) → Bytes → PacketId
function_id [] name = unknown
function_id ((k, id) ∷ rest) name = if str_eq k name then id else function_id rest name

unfoldable pub derive_variant_id : VariantPayload → PacketId
unfolding function_id function_name
derive_variant_id p = function_id function_map (function_name p)

-- `none` where the call does not end: there is no overload for a RawPayload, so it is converted to a
-- Payload again, and the function calls itself.
unfoldable pub derive_packet_id : (ℕ → Bool) → Payload → Option PacketId
unfolding derive_text_id derive_game_id derive_variant_id
derive_packet_id breaks (text p) = some (derive_text_id breaks p)
derive_packet_id breaks (game p) = some (derive_game_id p)
derive_packet_id breaks (call p) = some (derive_variant_id p)
derive_packet_id breaks (raw b) = none
