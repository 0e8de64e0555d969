-- ===== src/Tests/Messages.antt =====
-- packet_decoder.cpp, packet_helper.hpp and the packets on concrete messages.
use gtproxy.Prelude.{
  replicate, ◌++◌, ◌≡◌, refl, arith, true, false, [], ◌∷◌, Bytes, bytes, some, none,
}
use gtproxy.Prelude.Int.{pos, negsuc}
use gtproxy.Utils.ByteStream.{of_le, ByteStream, done}
use gtproxy.Utils.Zlib.{Inflate, Deflate, stream_end, decompress_zlib}
use gtproxy.Utils.TextParse.{get_raw}
use gtproxy.Packet.Types.{zero_packet}
use gtproxy.Packet.Variant.{string}
use gtproxy.Packet.WorldPackets.{OnSpawn, read_on_spawn}
use gtproxy.Packet.Payload.{GamePayload, Payload, variant_payload}
use gtproxy.Packet.Ids.{PacketId, derive_game_id}
use gtproxy.Packet.TextPackets.{TextPacket, join_request, write_text}
use gtproxy.Packet.GamePackets.{
  GamePacket, read_item_database_data, tile_change_request, write_game,
}
use gtproxy.Packet.GamePackets.Database.{read_item_database_data_zeros}
use gtproxy.Packet.GamePackets.Kinds.{written_id, derive_game_id-write_game}
use gtproxy.Packet.CallPackets.{write_on_spawn}
use gtproxy.Packet.CallPackets.Spawn.{placed, read-write_on_spawn}
use gtproxy.Packet.Registry.{text_class}
use gtproxy.Packet.Helper.{serialize}
use gtproxy.Packet.Ids.Patterns.{at_newlines}
use gtproxy.Packet.Decoder.{decode}
use gtproxy.Packet.Decoder.Frames.{frame, received}
use gtproxy.Packet.Decoder.Safety.{is_fault, reads_behind, is_fault-decode}
use gtproxy.Packet.Decoder.RoundTrip.{decode-frame}
use gtproxy.Packet.Decoder.Messages.{entries_of, read_back, decode-write_text}

-- An inflate that gives what it is given.
abbrev pub copied : Inflate
copied compressed_data = (compressed_data ∷ [], stream_end)

abbrev nothing : Inflate
nothing compressed_data = ([], stream_end)

abbrev stored : Deflate
stored str = some str

abbrev console_message : Payload
console_message =
    variant_payload zero_packet (string (bytes "OnConsoleMessage") ∷ string (bytes "hi") ∷ [])

decode-frame_example :
    (t : ByteStream) × (decode at_newlines copied true (frame console_message)
      ≡ done (received at_newlines copied console_message) t)
unfolding serialize
decode-frame_example =
    decode-frame at_newlines copied true console_message
      (omega arith, (omega arith, (omega arith, tt)), omega arith, omega arith, omega arith)

abbrev join : TextPacket
join = join_request (record { world_name = bytes "START"; invited_world = false })

decode-write_text_example :
    (t : ByteStream) × (decode at_newlines copied false (frame (write_text join))
      ≡ done (some (text_class (entries_of join) (read_back join))) t)
unfolding entries_of get_raw
decode-write_text_example = decode-write_text copied false join (omega arith) (omega arith)

abbrev spawned : OnSpawn
spawned = record {
  spawn = bytes "avatar";
  net_id = pos 7;
  user_id = pos 42;
  country_code = bytes "us";
  name = bytes "ann";
  position = [];
  collision = [];
  invisible = pos 0;
  mod_state = pos 0;
  supermod_state = negsuc 0;
  online_id = pos 9;
  type = bytes "local";
  title_icon = [];
}

read-write_on_spawn_example :
    read_on_spawn
      (write_on_spawn (placed spawned (pos 64) (pos 96) (pos 0) (pos 0) (pos 20) (pos 30)))
    ≡ some (record (placed spawned (pos 64) (pos 96) (pos 0) (pos 0) (pos 20) (pos 30)) {
      online_id = pos 0;
    })
read-write_on_spawn_example =
    read-write_on_spawn spawned (pos 64) (pos 96) (pos 0) (pos 0) (pos 20) (pos 30) (omega arith)
      (omega arith)

abbrev items : GamePayload
items = record { packet = record zero_packet { int_data = 3 }; extra = 120 ∷ []; raw_data = [] }

read_item_database_data_zeros_example : ◌≡◌ {A = Bytes} (0 ∷ 0 ∷ 0 ∷ []) (replicate 3 0)
unfolding read_item_database_data decompress_zlib
read_item_database_data_zeros_example =
    read_item_database_data_zeros nothing items (0 ∷ 0 ∷ 0 ∷ []) refl

-- Data of the size that was announced is refused.
announced : read_item_database_data copied (record items { extra = 1 ∷ 2 ∷ 3 ∷ [] }) ≡ none
unfolding read_item_database_data decompress_zlib
announced = refl

abbrev change : GamePacket
change = tile_change_request (record { int_x = 1; int_y = 2; item_id = 18 })

derive_game_id-write_game_example :
    derive_game_id (record {
      packet = record zero_packet { int_x = 1; int_y = 2; item_net_id = 18 };
      extra = [];
      raw_data = [];
    })
    ≡ PacketId.unknown
unfolding write_game written_id
derive_game_id-write_game_example = derive_game_id-write_game stored change _ refl

-- A call that says it has two arguments and ends within the first.
abbrev short_call : Bytes
short_call = 4 ∷ 0 ∷ 0 ∷ 0 ∷ 1 ∷ (replicate 55 0 ++ 2 ∷ 0 ∷ 2 ∷ [])

-- A game packet that ends behind its type.
abbrev cut_off : Bytes
cut_off = 4 ∷ 0 ∷ 0 ∷ 0 ∷ 1 ∷ []

is_fault-decode_example :
    is_fault (decode at_newlines copied true cut_off) ≡ reads_behind true cut_off
is_fault-decode_example = is_fault-decode at_newlines copied true cut_off (omega arith)

cut_off_read : reads_behind true cut_off ≡ true
unfolding of_le
cut_off_read = refl

short_call_read : reads_behind true short_call ≡ false
unfolding of_le
short_call_read = refl
