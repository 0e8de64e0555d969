-- ===== src/Packet/Helper/Encoding.antt =====
-- packet_helper.hpp: the bytes of a payload, described without a stream.
use gtproxy.Prelude.{ℕ, ◌^◌, ◌<◌, ◌≡◌, refl, ◌∙◌, arith, Bytes, [], ◌∷◌, ◌++◌, append_assoc}
use gtproxy.Utils.ByteStream.{to_le, write_data, write_uint, write_string, empty}
use gtproxy.Utils.ByteStream.Writes.{take_data-write_data}
use gtproxy.Utils.TextParse.{get_raw}
use gtproxy.Packet.Variant
use gtproxy.Packet.Types.{GameUpdatePacket, to_bytes}
use gtproxy.Packet.Types.Layout.{IsPacket}
use gtproxy.Packet.Payload.{
  TextPayload, GamePayload, VariantPayload, text, game, call, game_packet_message,
}
use gtproxy.Packet.Helper.{serialize, fill, set_extended, extended, game_header, call_header}

abbrev pub bar : Bytes
bar = b'|' ∷ []

pub serialize-text :
    (p : TextPayload) → serialize (text p) ≡ to_le 4 p.message_type ++ get_raw p.entries bar []
unfolding serialize fill write_string write_uint write_data empty
serialize-text p = take_data-write_data (to_le 4 p.message_type ++ get_raw p.entries bar [])

pub serialize-game :
    (p : GamePayload)
    → serialize (game p)
      ≡ to_le 4 game_packet_message ++ (to_bytes (game_header p.packet p.extra) ++ p.extra)
unfolding serialize fill write_uint write_data empty
serialize-game p =
    take_data-write_data
      ((to_le 4 game_packet_message ++ to_bytes (game_header p.packet p.extra)) ++ p.extra)
    ∙ append_assoc (to_le 4 game_packet_message) (to_bytes (game_header p.packet p.extra)) p.extra

pub serialize-call :
    (p : VariantPayload)
    → let ext_data = Variant.serialize p.variant in
      serialize (call p)
      ≡ to_le 4 game_packet_message ++ (to_bytes (call_header p.game_packet ext_data) ++ ext_data)
unfolding serialize fill write_uint write_data empty
serialize-call p =
    take_data-write_data (
      (to_le 4 game_packet_message
        ++ to_bytes (call_header p.game_packet (Variant.serialize p.variant)))
      ++ (Variant.serialize p.variant))
    ∙ append_assoc (to_le 4 game_packet_message)
        (to_bytes (call_header p.game_packet (Variant.serialize p.variant)))
        (Variant.serialize p.variant)

set_extended-lt : (flags : ℕ) → flags < 2 ^ 32 → set_extended flags < 2 ^ 32
unfolding set_extended
set_extended-lt flags h = ground arith

pub extended-IsPacket : (p : GameUpdatePacket) (e : Bytes) → IsPacket p → IsPacket (extended p e)
extended-IsPacket p e h = omega (arith, set_extended-lt p.flags h.flags_word)

pub game_header-IsPacket :
    (p : GameUpdatePacket) (e : Bytes) → IsPacket p → IsPacket (game_header p e)
game_header-IsPacket p [] h = h
game_header-IsPacket p (b ∷ e) h = extended-IsPacket p (b ∷ e) h

pub game_header-type : (p : GameUpdatePacket) (e : Bytes) → (game_header p e).type ≡ p.type
game_header-type p [] = refl
game_header-type p (b ∷ e) = refl
