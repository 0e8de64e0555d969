-- ===== src/Utils/ByteStream/Fields.antt =====
-- Fields of a fixed width and strings with their length, read from their bytes.
use gtproxy.Prelude.{ℕ, ◌^◌, ◌<◌, ◌≡◌, [], none, some, ◌++◌, Bytes, length, subst}
use gtproxy.Utils.ByteStream.{Reader, ◌>>=◌, return, to_le, read_into, read_string_into, read_data}
use gtproxy.Utils.ByteStream.Reads.{
  Reads, Reads-bind, Reads-map, Reads-uint, Reads-string, prefixed, bind_done, read_data-At,
}

abbrev pub Byte : ℕ → Type 0
Byte x = x < 256 ^ 1

abbrev pub Half : ℕ → Type 0
Half x = x < 256 ^ 2

abbrev pub Word : ℕ → Type 0
Word x = x < 256 ^ 4

abbrev pub Text : Bytes → Type 0
Text s = length s < 256 ^ 2

-- `read(T&)` of an array of `n` bytes; `old` is what it held.
abbrev pub read_array : ℕ → Bytes → Reader Bytes
read_array n old = do bytes ← read_data n; return (elim bytes [ none ↦ old | some b ↦ b ])

Reads-array : (n : ℕ) (x old : Bytes) → length x ≡ n → Reads (read_array n old) x x
Reads-array n x old h =
    subst (λ (k : ℕ). Reads (read_array k old) x x) h
      (λ s rest at. bind_done (read_data (length x)) _ s (read_data-At s x rest at))

module _ {ℓ} {B : Type ℓ} where
  pub u8_then :
      (x old : ℕ) (f : ℕ → Reader B) (cs : Bytes) (b : B)
      → Byte x
      → Reads (f x) cs b
      → Reads (read_into 1 old >>= f) (to_le 1 x ++ cs) b
  u8_then x old f cs b h = Reads-bind (read_into 1 old) f (to_le 1 x) cs x b (Reads-uint 1 x old h)

  pub u16_then :
      (x old : ℕ) (f : ℕ → Reader B) (cs : Bytes) (b : B)
      → Half x
      → Reads (f x) cs b
      → Reads (read_into 2 old >>= f) (to_le 2 x ++ cs) b
  u16_then x old f cs b h = Reads-bind (read_into 2 old) f (to_le 2 x) cs x b (Reads-uint 2 x old h)

  pub array_then :
      (n : ℕ) (x old : Bytes) (f : Bytes → Reader B) (cs : Bytes) (b : B)
      → length x ≡ n
      → Reads (f x) cs b
      → Reads (read_array n old >>= f) (x ++ cs) b
  array_then n x old f cs b h = Reads-bind (read_array n old) f x cs x b (Reads-array n x old h)

  pub u32_then :
      (x old : ℕ) (f : ℕ → Reader B) (cs : Bytes) (b : B)
      → Word x
      → Reads (f x) cs b
      → Reads (read_into 4 old >>= f) (to_le 4 x ++ cs) b
  u32_then x old f cs b h = Reads-bind (read_into 4 old) f (to_le 4 x) cs x b (Reads-uint 4 x old h)

  pub str_then :
      (x : Bytes) (f : Bytes → Reader B) (cs : Bytes) (b : B)
      → Text x
      → Reads (f x) cs b
      → Reads (read_string_into 2 [] >>= f) (prefixed 2 x ++ cs) b
  str_then x f cs b h =
      Reads-bind (read_string_into 2 []) f (prefixed 2 x) cs x b (Reads-string 2 x [] h)

  pub u8_last :
      (x old : ℕ) (f : ℕ → B)
      → Byte x
      → Reads (read_into 1 old >>= λ y. return (f y)) (to_le 1 x) (f x)
  u8_last x old f h = Reads-map (read_into 1 old) f (to_le 1 x) x (Reads-uint 1 x old h)

  pub u32_last :
      (x old : ℕ) (f : ℕ → B)
      → Word x
      → Reads (read_into 4 old >>= λ y. return (f y)) (to_le 4 x) (f x)
  u32_last x old f h = Reads-map (read_into 4 old) f (to_le 4 x) x (Reads-uint 4 x old h)

  pub str_last :
      (x : Bytes) (f : Bytes → B)
      → Text x
      → Reads (read_string_into 2 [] >>= λ y. return (f y)) (prefixed 2 x) (f x)
  str_last x f h = Reads-map (read_string_into 2 []) f (prefixed 2 x) x (Reads-string 2 x [] h)
