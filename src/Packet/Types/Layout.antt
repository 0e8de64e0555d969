-- ===== src/Packet/Types/Layout.antt =====
-- packet_types.hpp: the places of the fields in the bytes.
use gtproxy.Prelude.{
  ℕ, ◌+◌, ◌^◌, ◌<◌, ◌≡◌, refl, sym, ap, ◌∙◌, arith, true, List, [], ◌∷◌, ◌++◌, Bytes, length,
  length-append, take, drop, drop-length_append, take-length_append, drop-add,
}
use gtproxy.Utils.ByteStream.{to_le, of_le, read_data, done, ByteStream}
use gtproxy.Utils.ByteStream.Words.{length-to_le, of_le-to_le}
use gtproxy.Utils.ByteStream.Reads.{At, read_data-At, bind_done, advance}
use gtproxy.Packet.Types.{
  GameUpdatePacket, to_bytes, of_bytes, field, fields, packed, packet_size, read_packet,
}

abbrev Word : ℕ → Type 0
Word x = x < 256 ^ 4

-- Each field holds what its bytes can hold.
pub record IsPacket (p : GameUpdatePacket) : Type 0 where
  pub type_byte : p.type < 256 ^ 1
  pub pad_fits : p.pad < 256 ^ 3
  pub net_id_word : Word p.net_id
  pub item_net_id_word : Word p.item_net_id
  pub flags_word : Word p.flags
  pub float_word : Word p.float_var
  pub int_data_word : Word p.int_data
  pub pos_x_word : Word p.pos_x
  pub pos_y_word : Word p.pos_y
  pub pos_x2_word : Word p.pos_x2
  pub pos_y2_word : Word p.pos_y2
  pub pad_5_word : Word p.pad_5
  pub int_x_word : Word p.int_x
  pub int_y_word : Word p.int_y
  pub data_size_word : Word p.data_size

abbrev total : List (ℕ × ℕ) → ℕ
total [] = 0
total ((w, v) ∷ l) = w + total l

-- A field is found behind the sizes of those before it.
field-packed :
    (before : List (ℕ × ℕ)) (w v : ℕ) (after : List (ℕ × ℕ))
    → v < 256 ^ w
    → field (total before) w (packed (before ++ (w, v) ∷ after)) ≡ v
field-packed [] w v after h =
    ap (λ (k : ℕ). of_le (take k (to_le w v ++ packed after))) (sym (length-to_le w v))
    ∙ ap of_le (take-length_append (to_le w v) (packed after))
    ∙ of_le-to_le w v h
field-packed ((u, x) ∷ before) w v after h =
    ap (λ (l : Bytes). of_le (take w l))
      (drop-add u (total before) (to_le u x ++ rest)
        ∙ ap (drop (total before)) (
            ap (λ (n : ℕ). drop n (to_le u x ++ rest)) (sym (length-to_le u x))
            ∙ drop-length_append (to_le u x) rest))
    ∙ field-packed before w v after h
  where
    rest : Bytes
    rest = packed (before ++ (w, v) ∷ after)

-- Every field of the struct comes back from its place in the bytes.
of_bytes-to_bytes : (p : GameUpdatePacket) → IsPacket p → of_bytes (to_bytes p) ≡ p
unfolding of_bytes to_bytes
of_bytes-to_bytes p h = λ i. record {
  type = field-packed (take 0 (fields p)) 1 p.type (drop 1 (fields p)) h.type_byte i;
  pad = field-packed (take 1 (fields p)) 3 p.pad (drop 2 (fields p)) h.pad_fits i;
  net_id = field-packed (take 2 (fields p)) 4 p.net_id (drop 3 (fields p)) h.net_id_word i;
  item_net_id =
      field-packed (take 3 (fields p)) 4 p.item_net_id (drop 4 (fields p)) h.item_net_id_word i;
  flags = field-packed (take 4 (fields p)) 4 p.flags (drop 5 (fields p)) h.flags_word i;
  float_var = field-packed (take 5 (fields p)) 4 p.float_var (drop 6 (fields p)) h.float_word i;
  int_data = field-packed (take 6 (fields p)) 4 p.int_data (drop 7 (fields p)) h.int_data_word i;
  pos_x = field-packed (take 7 (fields p)) 4 p.pos_x (drop 8 (fields p)) h.pos_x_word i;
  pos_y = field-packed (take 8 (fields p)) 4 p.pos_y (drop 9 (fields p)) h.pos_y_word i;
  pos_x2 = field-packed (take 9 (fields p)) 4 p.pos_x2 (drop 10 (fields p)) h.pos_x2_word i;
  pos_y2 = field-packed (take 10 (fields p)) 4 p.pos_y2 (drop 11 (fields p)) h.pos_y2_word i;
  pad_5 = field-packed (take 11 (fields p)) 4 p.pad_5 (drop 12 (fields p)) h.pad_5_word i;
  int_x = field-packed (take 12 (fields p)) 4 p.int_x (drop 13 (fields p)) h.int_x_word i;
  int_y = field-packed (take 13 (fields p)) 4 p.int_y (drop 14 (fields p)) h.int_y_word i;
  data_size =
      field-packed (take 14 (fields p)) 4 p.data_size (drop 15 (fields p)) h.data_size_word i;
}

length-packed : (l : List (ℕ × ℕ)) → length (packed l) ≡ total l
length-packed [] = refl
length-packed ((w, v) ∷ l) =
    length-append (to_le w v) (packed l) ∙ omega (arith, length-to_le w v, length-packed l)

pub length-to_bytes : (p : GameUpdatePacket) → length (to_bytes p) ≡ packet_size
unfolding to_bytes
length-to_bytes p = length-packed (fields p)

-- If the bytes of a struct whose fields fit are what stands at the read position, the reader gives
-- back the struct, whatever the target held, and stands behind them.
pub read_packet-to_bytes :
    (p old : GameUpdatePacket) (s : ByteStream) (rest : Bytes)
    → IsPacket p
    → At s (to_bytes p ++ rest)
    → read_packet old s ≡ done (true, p) (advance (length (to_bytes p)) s)
unfolding read_packet
read_packet-to_bytes p old s rest h at =
    bind_done (read_data packet_size) _ s (
      ap (λ (n : ℕ). read_data n s) (sym (length-to_bytes p)) ∙ read_data-At s (to_bytes p) rest at)
    ∙ ap (λ (q : GameUpdatePacket). done (true, q) (advance (length (to_bytes p)) s))
        (of_bytes-to_bytes p h)
