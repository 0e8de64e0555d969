-- ===== src/Tests/Packets.antt =====
-- packet_variant.hpp and packet_types.hpp on concrete packets.
use gtproxy.Prelude.{◌≡◌, refl, arith, true, List, [], ◌∷◌, replicate}
use gtproxy.Utils.ByteStream.{ByteStream, done, of_span, read_uint}
use gtproxy.Utils.ByteStream.Reads.{advance}
use gtproxy.Packet.Variant.{Variant, string, vec2, unsigned, signed, serialize, deserialize}
use gtproxy.Packet.Variant.RoundTrip.{deserialize-serialize}
use gtproxy.Packet.Types.{GameUpdatePacket, zero_packet}

-- A call with a name and two arguments.
abbrev call : List Variant
call = string (b'h' ∷ b'i' ∷ []) ∷ vec2 1 2 ∷ signed 4294967295 ∷ []

call_written :
    serialize (string (b'h' ∷ b'i' ∷ []) ∷ []) ≡ 1 ∷ 0 ∷ 2 ∷ 2 ∷ 0 ∷ 0 ∷ 0 ∷ b'h' ∷ b'i' ∷ []
unfolding serialize
call_written = refl

-- A count of 1 and nothing behind it is accepted, as no value.
cut_off : deserialize [] (1 ∷ []) ≡ done (true, []) (advance 1 (of_span (1 ∷ [])))
unfolding deserialize of_span read_uint
cut_off = refl

deserialize-serialize_example :
    (t : ByteStream) × (deserialize [] (serialize call) ≡ done (true, call) t)
unfolding serialize
deserialize-serialize_example =
    deserialize-serialize call (omega arith, ((omega arith, omega arith), (omega arith, tt)))
      (omega arith) (omega arith) (omega arith)

abbrev many : List Variant
many = replicate 256 (unsigned 7)

abbrev punch_packet : GameUpdatePacket
punch_packet = record zero_packet { type = 3; item_net_id = 18; int_x = 10; int_y = 20 }
