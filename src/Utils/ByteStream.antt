-- ===== src/Utils/ByteStream.antt =====
-- utils/byte_stream.hpp: a byte buffer with a read position.
pub mod Words
pub mod Reads
pub mod Fields
pub mod Safety
pub mod Writes
use gtproxy.Prelude.{
  ℕ, zero, suc, ◌+◌, ◌-◌, ◌*◌, ◌/◌, ◌%◌, ◌^◌, Bool, true, false, Option, none, some, [], ◌∷◌, ◌++◌,
  Bytes, ltb, leb, ◌==◌, if◌then◌else◌, length, take, drop, replicate,
}

-- `data_vec_`, `data_span_`, `read_offset_`. The span is held by value: nothing writes through it.
pub record ByteStream : Type 0 where
  pub data_vec : Bytes
  pub data_span : Bytes
  pub read_offset : ℕ

-- The result of running code that reads: a value and the stream, or an access out of bounds.
pub data Outcome {ℓ} (A : Type ℓ) : Type ℓ where
  done : A → ByteStream → Outcome A
  fault : Outcome A

abbrev pub Reader {ℓ} : Type ℓ → Type ℓ
Reader A = ByteStream → Outcome A

infixl 5 ◌>>=◌ ◌>>◌
abbrev pub ◌>>=◌ {ℓ κ} : {A : Type ℓ} {B : Type κ} → Reader A → (A → Reader B) → Reader B
◌>>=◌ m f s = elim (m s) [ done a t ↦ f a t | fault ↦ fault ]

abbrev pub ◌>>◌ {ℓ κ} : {A : Type ℓ} {B : Type κ} → Reader A → Reader B → Reader B
m >> k = m >>= λ _. k

abbrev pub return {ℓ} : {A : Type ℓ} → A → Reader A
return a s = done a s

-- std::size_t
abbrev pub size_mod : ℕ
size_mod = 2 ^ 64

-- The default constructor, and the one over a span.
unfoldable pub empty : ByteStream
empty = record { data_vec = []; data_span = []; read_offset = 0 }

unfoldable pub of_span : Bytes → ByteStream
of_span bytes = record { data_vec = []; data_span = bytes; read_offset = 0 }

-- `get_raw_ptr`: the vector once it holds anything, and the span before that.
unfoldable pub contents_of : Bytes → Bytes → Bytes
contents_of [] span = span
contents_of (b ∷ bs) span = b ∷ bs

unfoldable pub get_data : ByteStream → Bytes
unfolding contents_of
get_data s = contents_of s.data_vec s.data_span

unfoldable pub get_size : ByteStream → ℕ
unfolding get_data
get_size s = length (get_data s)

unfoldable pub take_data : ByteStream → Bytes × ByteStream
unfolding get_data
take_data s = (get_data s, record s { data_vec = [] })

unfoldable pub write_data : Bytes → ByteStream → ByteStream
write_data bytes s = record s { data_vec = s.data_vec ++ bytes }

-- The object representation of an unsigned integer of `w` bytes, little endian.
unfoldable pub to_le : ℕ → ℕ → Bytes
to_le zero v = []
to_le (suc w) v = (v % 256) ∷ to_le w (v / 256)

unfoldable pub of_le : Bytes → ℕ
of_le [] = 0
of_le (b ∷ bs) = b + 256 * of_le bs

-- `write<T>` for a T of `w` bytes.
unfoldable pub write_uint : ℕ → ℕ → ByteStream → ByteStream
unfolding write_data to_le
write_uint w v = write_data (to_le w v)

-- `write(const std::string&, bool)` and `write_vector`, for a LengthType of `lw` bytes.
unfoldable pub write_string : ℕ → Bytes → Bool → ByteStream → ByteStream
unfolding write_data write_uint
write_string lw str write_length_info s =
    write_data str (if write_length_info then write_uint lw (length str % 256 ^ lw) s else s)

-- `get_size() - read_offset_`, on std::size_t.
unfoldable pub left : ByteStream → ℕ
unfolding get_size
left s = (get_size s + size_mod - s.read_offset) % size_mod

unfoldable pub skip : ℕ → ByteStream → ByteStream
skip n s = record s { read_offset = (s.read_offset + n) % size_mod }

unfoldable pub backtrack : ℕ → ByteStream → ByteStream
backtrack n s = record s { read_offset = (s.read_offset + size_mod - n % size_mod) % size_mod }

-- The `memcpy` behind the check: it is defined only inside the buffer.
pub copy : ℕ → Reader (Option Bytes)
unfolding get_size get_data skip
copy n s =
    if leb (s.read_offset + n) (get_size s)
    then done (some (take n (drop s.read_offset (get_data s)))) (skip n s)
    else fault

-- `read_data`; `none` is the result false, which leaves the target alone.
unfoldable pub read_data : ℕ → Reader (Option Bytes)
unfolding left copy
read_data n s = if ltb (left s) n then done none s else copy n s

-- `read<T>(T& value)` for a T of `w` bytes; `value` is what the target held.
unfoldable pub read_uint : ℕ → ℕ → Reader (Bool × ℕ)
unfolding read_data of_le
read_uint w value = do
  bytes ← read_data w
  return (elim bytes [ none ↦ (false, value) | some b ↦ (true, of_le b) ])

-- `resize`, with zeros behind what was there.
unfoldable pub resize : ℕ → Bytes → Bytes
resize n bytes = take n (bytes ++ replicate n 0)

-- The end of `read(std::string&, LengthType)` and of `read_vector`: the length is known.
pub read_block : ℕ → Bytes → Reader (Bool × Bytes)
unfolding left read_data resize
read_block n str s =
    if ltb (left s) n
    then done (false, str) s
    else (do
      bytes ← read_data n
      return (elim bytes [ none ↦ (false, resize n str) | some b ↦ (true, b) ]))
        s

-- `read(std::string& str, LengthType length)`. A length of 0 asks for the one in the stream.
unfoldable pub read_string : ℕ → Bytes → ℕ → Reader (Bool × Bytes)
unfolding read_uint read_block
read_string lw str length =
    if length == 0
    then (do
      (found, n) ← read_uint lw length
      if found then read_block n str else return (false, str))
    else read_block length str

-- `bs.read(target);` as a statement: the flag is dropped.
abbrev pub read_into : ℕ → ℕ → Reader ℕ
read_into w value = do (_, v) ← read_uint w value; return v

abbrev pub read_string_into : ℕ → Bytes → Reader Bytes
read_string_into lw str = do (_, v) ← read_string lw str 0; return v

-- `bs.skip(n);` among reads.
abbrev pub skip_bytes : ℕ → Reader (Unit {0})
skip_bytes n s = done tt (skip n s)
