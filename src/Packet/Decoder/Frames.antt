-- ===== src/Packet/Decoder/Frames.antt =====
-- What packet_helper.hpp sends, and which payload packet_decoder.cpp is to make of it.
use gtproxy.Prelude.{ℕ, ◌^◌, ◌<◌, ◌≡◌, ◌≢◌, Bytes, [], ◌∷◌, ◌++◌, length, Bool, ◌⊎◌, Option, none}
use gtproxy.Utils.ByteStream.{size_mod}
use gtproxy.Utils.TextParse.{get_raw}
use gtproxy.Utils.TextParse.RoundTrip.{AllPlain}
use gtproxy.Utils.Zlib.{Inflate}
use gtproxy.Packet.Variant
use gtproxy.Packet.Variant.{Variant}
use gtproxy.Packet.Variant.RoundTrip.{AllFit}
use gtproxy.Packet.Types.Layout.{IsPacket}
use gtproxy.Packet.Payload.{
  TextPayload, Payload, text, game, call, raw, game_message, generic_text_message,
}
use gtproxy.Packet.Registry.{IPacket, create_text, create_game, create_variant}
use gtproxy.Packet.Helper.{serialize, game_header, call_header}
use gtproxy.Packet.Helper.Encoding.{bar}

-- What goes over the wire: `PacketHelper::write` puts a zero behind the packet.
abbrev pub frame : Payload → Bytes
frame p = serialize p ++ 0 ∷ []

abbrev pub raw_text : TextPayload → Bytes
raw_text p = get_raw p.entries bar []

-- What can be sent so that it comes back: a text is not empty and its length fits 16 bits.
abbrev pub Sendable : Payload → Type 0
Sendable (text p) =
    ((p.message_type ≡ generic_text_message) ⊎ (p.message_type ≡ game_message))
    × AllPlain b'|' p.entries
    × (0 < length (raw_text p))
    × (length (raw_text p) < 2 ^ 16)
Sendable (game p) = IsPacket p.packet × (p.packet.type ≢ 1) × (length (frame (game p)) < size_mod)
Sendable (call p) =
    IsPacket p.game_packet
    × AllFit p.variant
    × (0 < length p.variant)
    × (length p.variant < 256)
    × (length (frame (call p)) < size_mod)
Sendable (raw b) = ⊥

module _ (breaks : ℕ → Bool) (inflate : Inflate) where
  -- What the registry makes of the payload that is received: the bytes of the message are kept, and
  -- the zero belongs to the extra data of a game packet.
  abbrev pub received : Payload → Option IPacket
  received (text p) = create_text breaks inflate (record p { raw_data = frame (text p) })
  received (game p) = create_game breaks inflate (record {
    packet = game_header p.packet p.extra;
    extra = p.extra ++ 0 ∷ [];
    raw_data = frame (game p);
  })
  received (call p) = create_variant breaks inflate (record {
    game_packet = call_header p.game_packet (Variant.serialize p.variant);
    variant = p.variant;
    raw_data = frame (call p);
  })
  received (raw b) = none
