-- ===== src/Packet/Variant.antt =====
-- packet/packet_variant.hpp: the arguments of a call, and their wire format.
pub mod Encoding
pub mod RoundTrip
pub mod Malformed
use gtproxy.Prelude.{
  ℕ, zero, suc, ◌+◌, ◌%◌, Bool, true, false, List, [], ◌∷◌, ◌++◌, Option, none, some, Bytes, ltb,
  ◌==◌, if◌then◌else◌, length, get_elem?, set,
}
use gtproxy.Utils.ByteStream.{
  ByteStream, Outcome, done, fault, Reader, ◌>>=◌, ◌>>◌, return, empty, of_span, write_uint,
  write_string, take_data, read_into, read_string_into,
}

-- `variant`. A float is the bit pattern of its four bytes, an int32_t its two's complement.
pub data Variant : Type 0 where
  float : ℕ → Variant
  string : Bytes → Variant
  vec2 : ℕ → ℕ → Variant
  vec3 : ℕ → ℕ → ℕ → Variant
  unsigned : ℕ → Variant
  signed : ℕ → Variant

-- `get_type`, with the values of `enum class VariantType`.
unfoldable pub get_type : Variant → ℕ
get_type (float x) = 1
get_type (string s) = 2
get_type (vec2 x y) = 3
get_type (vec3 x y z) = 4
get_type (unsigned n) = 5
get_type (signed n) = 9

-- sizeof(LengthType) of the `ByteStream<uint32_t>`.
abbrev pub length_width : ℕ
length_width = 4

-- The chain of tests in the loop of `serialize`.
unfoldable pub write_value : Variant → ByteStream → ByteStream
unfolding write_uint write_string
write_value (float x) s = write_uint 4 x s
write_value (string str) s = write_string length_width str true s
write_value (vec2 x y) s = write_uint 4 y (write_uint 4 x s)
write_value (vec3 x y z) s = write_uint 4 z (write_uint 4 y (write_uint 4 x s))
write_value (unsigned n) s = write_uint 4 n s
write_value (signed n) s = write_uint 4 n s

-- The loop of `serialize`, from index `i` on.
unfoldable pub write_values : ℕ → List Variant → ByteStream → ByteStream
unfolding write_value get_type
write_values i [] s = s
write_values i (v ∷ vs) s =
    write_values (suc i) vs (write_value v (write_uint 1 (get_type v) (write_uint 1 (i % 256) s)))

unfoldable pub serialize : List Variant → Bytes
unfolding write_values take_data empty
serialize vs = (take_data (write_values 0 vs (write_uint 1 (length vs % 256) empty))).0

-- The chain of tests in the loop of `deserialize`: an unknown type appends nothing.
unfoldable pub read_value : ℕ → List Variant → Reader (List Variant)
read_value type vs =
    if type == 1
    then (do x ← read_into 4 0; return (vs ++ float x ∷ []))
    else if type == 2
    then (do str ← read_string_into length_width []; return (vs ++ string str ∷ []))
    else if type == 3
    then (do x ← read_into 4 0; y ← read_into 4 0; return (vs ++ vec2 x y ∷ []))
    else if type == 4
    then (do
      x ← read_into 4 0
      y ← read_into 4 0
      z ← read_into 4 0
      return (vs ++ vec3 x y z ∷ []))
    else if type == 5
    then (do n ← read_into 4 0; return (vs ++ unsigned n ∷ []))
    else if type == 9
    then (do n ← read_into 4 0; return (vs ++ signed n ∷ []))
    else return vs

-- One round of the loop: the index is read and not used.
unfoldable pub read_entry : List Variant → Reader (List Variant)
unfolding read_value
read_entry vs = do _ ← read_into 1 0; type ← read_into 1 0; read_value type vs

-- The loop of `deserialize`, with the rounds left.
unfoldable pub read_entries : ℕ → List Variant → Reader (List Variant)
unfolding read_entry
read_entries zero vs = return vs
read_entries (suc n) vs = read_entry vs >>= read_entries n

-- `deserialize` behind the count.
pub read_counted : ℕ → List Variant → Reader (Bool × List Variant)
unfolding read_entries
read_counted size vs =
    if size == 0 then return (false, vs) else (do ws ← read_entries size vs; return (true, ws))

-- `deserialize` on an object that holds `vs`: the result, and what the object holds then.
unfoldable pub deserialize : List Variant → Bytes → Outcome (Bool × List Variant)
unfolding read_counted of_span
deserialize vs bytes = (do size ← read_into 1 0; read_counted size vs) (of_span bytes)

-- `get<std::string>`: the empty string out of range and for another type.
unfoldable pub get_string : List Variant → ℕ → Bytes
get_string vs index = elim (get_elem? vs index) [ none ↦ [] | some (string s) ↦ s | _ ↦ [] ]

-- `get<int32_t>` and `get<uint32_t>`: 0 out of range and for another type.
unfoldable pub get_signed : List Variant → ℕ → ℕ
get_signed vs index = elim (get_elem? vs index) [ none ↦ 0 | some (signed n) ↦ n | _ ↦ 0 ]

unfoldable pub get_unsigned : List Variant → ℕ → ℕ
get_unsigned vs index = elim (get_elem? vs index) [ none ↦ 0 | some (unsigned n) ↦ n | _ ↦ 0 ]

-- `set`, which ignores an index out of range.
abbrev set_value : List Variant → ℕ → Variant → List Variant
set_value vs index v = if ltb index (length vs) then set vs index v else vs
