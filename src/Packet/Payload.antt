-- ===== src/Packet/Payload.antt =====
-- packet/payload.hpp: what a packet is made of, before it has a class.
use gtproxy.Prelude.{ℕ, ◌^◌, ◌-◌, List, [], Bytes}
use gtproxy.Utils.TextParse.{TextParse}
use gtproxy.Packet.Variant.{Variant, get_string}
use gtproxy.Packet.Types.{GameUpdatePacket}

-- `enum NetMessageType`, at the kinds that are decoded.
abbrev pub server_hello_message : ℕ
server_hello_message = 1

abbrev pub generic_text_message : ℕ
generic_text_message = 2

abbrev pub game_message : ℕ
game_message = 3

abbrev pub game_packet_message : ℕ
game_packet_message = 4

pub record TextPayload : Type 0 where
  pub message_type : ℕ
  pub entries : TextParse
  pub raw_data : Bytes

pub record GamePayload : Type 0 where
  pub packet : GameUpdatePacket
  pub extra : Bytes
  pub raw_data : Bytes

pub record VariantPayload : Type 0 where
  pub game_packet : GameUpdatePacket
  pub variant : List Variant
  pub raw_data : Bytes

-- `Payload`, a std::variant.
pub data Payload : Type 0 where
  text : TextPayload → Payload
  game : GamePayload → Payload
  call : VariantPayload → Payload
  raw : Bytes → Payload

-- `Payload{}` is the first alternative, by its default constructor.
abbrev pub default_payload : Payload
default_payload = text (record { message_type = game_message; entries = []; raw_data = [] })

-- The constructors with one or two arguments, which keep no raw bytes.
abbrev pub text_payload : ℕ → TextParse → Payload
text_payload type entries = text (record { message_type = type; entries = entries; raw_data = [] })

abbrev pub game_payload : GameUpdatePacket → Bytes → Payload
game_payload packet extra = game (record { packet = packet; extra = extra; raw_data = [] })

abbrev pub variant_payload : GameUpdatePacket → List Variant → Payload
variant_payload packet variant =
    call (record { game_packet = packet; variant = variant; raw_data = [] })

unfoldable pub function_name : VariantPayload → Bytes
unfolding get_string
function_name p = get_string p.variant 0

-- -1 as a word of 32 bits.
abbrev pub minus_one_word : ℕ
minus_one_word = 2 ^ 32 - 1
