-- ===== src/Packet/Helper.antt =====
-- packet/packet_helper.hpp: the bytes of a packet.
pub mod Encoding
use gtproxy.Prelude.{
  ℕ, ◌+◌, ◌/◌, ◌%◌, ◌^◌, Bool, true, false, List, [], ◌∷◌, ◌++◌, Option, none, some, Bytes, ◌==◌,
  if◌then◌else◌, length,
}
use gtproxy.Utils.ByteStream.{ByteStream, empty, write_uint, write_string, write_data, take_data}
use gtproxy.Utils.TextParse.{get_raw, is_empty}
use gtproxy.Utils.Zlib.{Deflate}
use gtproxy.Packet.Variant
use gtproxy.Packet.Types.{GameUpdatePacket, to_bytes}
use gtproxy.Packet.Payload.{Payload, text, game, call, raw, game_packet_message}
use gtproxy.Packet.Registry.{IPacket, write, raw_data}

-- `flags.extended = 1`: bit 3 of the word.
unfoldable pub set_extended : ℕ → ℕ
set_extended flags = if flags / 8 % 2 == 1 then flags else flags + 8

abbrev pub extended : GameUpdatePacket → Bytes → GameUpdatePacket
extended packet ext_data = record packet {
  flags = set_extended packet.flags;
  data_size = length ext_data % 2 ^ 32;
}

-- The header of a GamePayload changes only if there is extra data.
abbrev pub game_header : GameUpdatePacket → Bytes → GameUpdatePacket
game_header packet extra = if is_empty extra then packet else extended packet extra

abbrev pub call_header : GameUpdatePacket → Bytes → GameUpdatePacket
call_header packet ext_data = extended (record packet { type = 1 }) ext_data

-- The stream is a `ByteStream<>`, but no string is written with its length.
unfoldable pub fill : Payload → ByteStream → ByteStream
unfolding write_uint write_string write_data to_bytes set_extended get_raw Variant.serialize
fill (text p) s =
    write_string 2 (get_raw p.entries (b'|' ∷ []) []) false (write_uint 4 p.message_type s)
fill (game p) s =
    write_data p.extra
      (write_data (to_bytes (game_header p.packet p.extra)) (write_uint 4 game_packet_message s))
fill (call p) s =
    let ext_data = Variant.serialize p.variant in
    write_data ext_data (
      write_data (to_bytes (call_header p.game_packet ext_data))
        (write_uint 4 game_packet_message s))
fill (raw bytes) s = s

-- `PacketHelper::serialize` of a payload.
unfoldable pub serialize : Payload → Bytes
unfolding fill empty take_data
serialize (raw bytes) = bytes
serialize p = (take_data (fill p empty)).0

-- `PacketHelper::serialize` of a packet.
unfoldable serialize_packet : Deflate → IPacket → Bytes
unfolding serialize write raw_data
serialize_packet deflate packet =
    if is_empty (raw_data packet) then serialize (write deflate packet) else raw_data packet

-- `PacketHelper::write`: what is sent, and `none` for the result false.
unfoldable pub sent : Deflate → IPacket → Option Bytes
unfolding serialize_packet
sent deflate packet =
    let bytes = serialize_packet deflate packet in
    if is_empty bytes then none else some (bytes ++ 0 ∷ [])
