-- ===== src/Packet/Types.antt =====
-- packet/packet_types.hpp: the packed struct `GameUpdatePacket` and its 56 bytes.
pub mod Layout
use gtproxy.Prelude.{
  ℕ, ◌++◌, List, [], ◌∷◌, Bytes, take, drop, Bool, true, false, Option, none, some,
}
use gtproxy.Utils.ByteStream.{Reader, ◌>>=◌, return, to_le, of_le, read_data}

-- The fields in their order, as bit patterns; of a union the name that the code uses most. `pad` is
-- the three bytes behind the type, `pad_5` the four in front of `int_x`.
pub record GameUpdatePacket : Type 0 where
  pub type : ℕ
  pub pad : ℕ
  pub net_id : ℕ
  pub item_net_id : ℕ
  pub flags : ℕ
  pub float_var : ℕ
  pub int_data : ℕ
  pub pos_x : ℕ
  pub pos_y : ℕ
  pub pos_x2 : ℕ
  pub pos_y2 : ℕ
  pub pad_5 : ℕ
  pub int_x : ℕ
  pub int_y : ℕ
  pub data_size : ℕ

-- `GameUpdatePacket pkt{}`
abbrev pub zero_packet : GameUpdatePacket
zero_packet = record {
  type = 0;
  pad = 0;
  net_id = 0;
  item_net_id = 0;
  flags = 0;
  float_var = 0;
  int_data = 0;
  pos_x = 0;
  pos_y = 0;
  pos_x2 = 0;
  pos_y2 = 0;
  pad_5 = 0;
  int_x = 0;
  int_y = 0;
  data_size = 0;
}

-- Each field with its size in bytes.
abbrev pub fields : GameUpdatePacket → List (ℕ × ℕ)
fields p =
    (1, p.type)
    ∷ (3, p.pad)
    ∷ (4, p.net_id)
    ∷ (4, p.item_net_id)
    ∷ (4, p.flags)
    ∷ (4, p.float_var)
    ∷ (4, p.int_data)
    ∷ (4, p.pos_x)
    ∷ (4, p.pos_y)
    ∷ (4, p.pos_x2)
    ∷ (4, p.pos_y2)
    ∷ (4, p.pad_5)
    ∷ (4, p.int_x)
    ∷ (4, p.int_y)
    ∷ (4, p.data_size)
    ∷ []

abbrev pub packed : List (ℕ × ℕ) → Bytes
packed [] = []
packed ((w, v) ∷ l) = to_le w v ++ packed l

-- The object representation, with `#pragma pack(1)`.
unfoldable pub to_bytes : GameUpdatePacket → Bytes
to_bytes p = packed (fields p)

-- The field of `w` bytes at an offset.
abbrev pub field : ℕ → ℕ → Bytes → ℕ
field offset w bytes = of_le (take w (drop offset bytes))

unfoldable pub of_bytes : Bytes → GameUpdatePacket
of_bytes b = record {
  type = field 0 1 b;
  pad = field 1 3 b;
  net_id = field 4 4 b;
  item_net_id = field 8 4 b;
  flags = field 12 4 b;
  float_var = field 16 4 b;
  int_data = field 20 4 b;
  pos_x = field 24 4 b;
  pos_y = field 28 4 b;
  pos_x2 = field 32 4 b;
  pos_y2 = field 36 4 b;
  pad_5 = field 40 4 b;
  int_x = field 44 4 b;
  int_y = field 48 4 b;
  data_size = field 52 4 b;
}

abbrev pub packet_size : ℕ
packet_size = 56

-- `stream.read(game_pkt)`: all of the struct, or nothing.
unfoldable pub read_packet : GameUpdatePacket → Reader (Bool × GameUpdatePacket)
unfolding of_bytes
read_packet old = do
  bytes ← read_data packet_size
  return (elim bytes [ none ↦ (false, old) | some b ↦ (true, of_bytes b) ])
