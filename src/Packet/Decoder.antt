-- ===== src/Packet/Decoder.antt =====
-- packet/packet_decoder.cpp: from the bytes of a message to a packet.
pub mod Frames
pub mod Texts
pub mod Calls
pub mod RoundTrip
pub mod Messages
pub mod Safety
use gtproxy.Prelude.{
  ℕ, ◌+◌, ◌-◌, ◌%◌, ◌^◌, Bool, true, false, ◌&&◌, List, [], ◌∷◌, Option, none, some, Bytes, ltb,
  ◌==◌, if◌then◌else◌, length, drop,
}
use gtproxy.Utils.ByteStream.{
  skip, left, ByteStream, Outcome, done, fault, Reader, ◌>>=◌, return, of_span, read_uint,
  read_string, size_mod, get_size,
}
use gtproxy.Utils.TextParse.{parse}
use gtproxy.Utils.Zlib.{Inflate}
use gtproxy.Packet.Types.{GameUpdatePacket, zero_packet, read_packet, packet_size}
use gtproxy.Packet.Variant
use gtproxy.Packet.Variant.{Variant}
use gtproxy.Packet.Payload.{
  server_hello_message, generic_text_message, game_message, game_packet_message,
}
use gtproxy.Packet.Registry.{IPacket, create_text, create_game, create_variant}

-- The length that is asked of the text: the size less 5, on std::size_t, as 16 bits.
unfoldable pub text_length : ℕ → ℕ
text_length size = (size + size_mod - 5) % size_mod % 2 ^ 16

-- `stream.skip(extra_size)`
unfoldable pub skip_extra : GameUpdatePacket → ByteStream → ByteStream
unfolding left skip
skip_extra game_pkt s = skip (if ltb 0 game_pkt.data_size then game_pkt.data_size else left s) s

module _ (breaks : ℕ → Bool) (inflate : Inflate) where
  -- NET_MESSAGE_GENERIC_TEXT and NET_MESSAGE_GAME_MESSAGE. The text is empty where the read fails.
  unfoldable pub decode_text : ℕ → Bytes → Reader (Option IPacket)
  unfolding text_length parse create_text
  decode_text msg_type bytes = do
    (_, message) ← read_string 2 [] (text_length (length bytes))
    return (
        create_text breaks inflate (record {
          message_type = msg_type;
          entries = parse message (b'|' ∷ []);
          raw_data = bytes;
        }))

  -- A call whose arguments cannot be read is dropped.
  unfoldable pub decode_call : GameUpdatePacket → Bytes → Bytes → Reader (Option IPacket)
  unfolding create_variant
  decode_call game_pkt extra bytes s = elim (Variant.deserialize [] extra) [
    | fault ↦ fault
    | done (false, variant) t ↦ done none s
    | done (true, variant) t ↦
        done
          (create_variant breaks inflate
            (record { game_packet = game_pkt; variant = variant; raw_data = bytes }))
          s
  ]

  -- The extra data is all that stands behind the header, whatever `data_size` says; with
  -- `print_game_update_packet` the header's bytes are read once more, without a test of the size.
  unfoldable pub decode_extra : (print : Bool) → Bytes → GameUpdatePacket → Reader (Option IPacket)
  unfolding skip_extra decode_call create_game
  decode_extra print bytes game_pkt s =
      let extra = drop s.read_offset bytes in
      if print && ltb (length bytes) (4 + packet_size)
      then fault
      else if game_pkt.type == 1
      then decode_call game_pkt extra bytes (skip_extra game_pkt s)
      else done
          (create_game breaks inflate
            (record { packet = game_pkt; extra = extra; raw_data = bytes }))
          (skip_extra game_pkt s)

  unfoldable pub decode_game : (print : Bool) → Bytes → Reader (Option IPacket)
  unfolding decode_extra
  decode_game print bytes = do
    (_, game_pkt) ← read_packet zero_packet
    decode_extra print bytes game_pkt

  -- The `switch` on the message type.
  unfoldable pub decode_message : (print : Bool) → Bytes → ℕ → Reader (Option IPacket)
  unfolding decode_text decode_game create_text
  decode_message print bytes msg_type =
      if msg_type == server_hello_message
      then return (
          create_text breaks inflate
            (record { message_type = server_hello_message; entries = []; raw_data = bytes }))
      else if msg_type == generic_text_message
      then decode_text msg_type bytes
      else if msg_type == game_message
      then decode_text msg_type bytes
      else if msg_type == game_packet_message
      then decode_game print bytes
      else return none

  -- `PacketDecoder::decode`; `print` is `print_game_update_packet` of the log's configuration.
  unfoldable pub decode : (print : Bool) → Bytes → Outcome (Option IPacket)
  unfolding decode_message of_span
  decode print bytes =
      (do
        (found, msg_type) ← read_uint 4 0
        elim found [ false ↦ return none | true ↦ decode_message print bytes msg_type ])
        (of_span bytes)
