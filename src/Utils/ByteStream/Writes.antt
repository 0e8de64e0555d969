-- ===== src/Utils/ByteStream/Writes.antt =====
-- What the writing operations leave on the stream, and reading it back.
use gtproxy.Prelude.{
  ℕ, ◌+◌, ◌^◌, ◌<◌, ◌≡◌, refl, sym, ap, ◌∙◌, arith, true, [], ◌∷◌, ◌++◌, append_assoc, append-nil,
  Bytes, length, length-append, drop-length_append,
}
use gtproxy.Utils.ByteStream.{
  ByteStream, done, size_mod, contents_of, get_data, get_size, write_data, write_uint, write_string,
  to_le, read_string, read_uint, take_data, empty,
}
use gtproxy.Utils.ByteStream.Words.{length-to_le}
use gtproxy.Utils.ByteStream.Reads.{At, advance, prefixed, read_string-prefixed, read_uint-to_le}
use native.Mathlib.Nat.{mod-eq_of_lt}

contents_of-append : (xs ys span : Bytes) → 0 < length ys → contents_of (xs ++ ys) span ≡ xs ++ ys
unfolding contents_of
contents_of-append [] [] span h = absurd (omega arith)
contents_of-append [] (y ∷ ys) span h = refl
contents_of-append (x ∷ xs) ys span h = refl

-- The stream, read from where a write began.
abbrev reread : ByteStream → ByteStream → ByteStream
reread s t = record t { read_offset = length s.data_vec }

reread-At :
    (s : ByteStream) (bytes : Bytes)
    → 0 < length bytes
    → length s.data_vec + length bytes < size_mod
    → At (reread s (write_data bytes s)) (bytes ++ [])
unfolding get_data get_size write_data
reread-At s bytes pos small =
    rw (contents_of-append s.data_vec bytes s.data_span pos, append-nil)
      (
        drop-length_append s.data_vec bytes,
        sym (length-append s.data_vec bytes),
        omega (arith, length-append s.data_vec bytes),
      )

-- An integer that was written is read back from where it was written, and the reader stands behind
-- it: one of 1 byte or more, that fits these, in a buffer whose size is a std::size_t.
read_uint-write_uint :
    (w v old : ℕ) (s : ByteStream)
    → 0 < w
    → v < 256 ^ w
    → length s.data_vec + w < size_mod
    → let t = reread s (write_uint w v s) in read_uint w old t ≡ done (true, v) (advance w t)
unfolding write_uint
read_uint-write_uint w v old s pos h small =
    read_uint-to_le w v old h (reread s (write_uint w v s)) []
      (reread-At s (to_le w v) (omega (arith, length-to_le w v)) (omega (arith, length-to_le w v)))
    ∙ ap (λ (k : ℕ). done (true, v) (advance k (reread s (write_uint w v s)))) (length-to_le w v)

write_string-prefixed :
    (lw : ℕ) (str : Bytes) (s : ByteStream)
    → length str < 256 ^ lw
    → write_string lw str true s ≡ write_data (prefixed lw str) s
unfolding write_string write_uint write_data
write_string-prefixed lw str s h =
    rw (mod-eq_of_lt h, append_assoc s.data_vec (to_le lw (length str)) str)

-- A string that was written with its length is read back whole from where it was written, whatever
-- bytes it holds, if the length fits a LengthType of 1 byte or more and the buffer's size a
-- std::size_t.
read_string-write_string :
    (lw : ℕ) (str old : Bytes) (s : ByteStream)
    → 0 < lw
    → length str < 256 ^ lw
    → length s.data_vec + lw + length str < size_mod
    → let t = reread s (write_string lw str true s) in
      read_string lw old 0 t ≡ done (true, str) (advance (lw + length str) t)
read_string-write_string lw str old s pos h small = rw (write_string-prefixed lw str s h) (
    read_string-prefixed lw str old h (reread s (write_data (prefixed lw str) s)) []
      (reread-At s (prefixed lw str) (omega (arith, size)) (omega (arith, size)))
    ∙ ap (λ (k : ℕ). done (true, str) (advance k (reread s (write_data (prefixed lw str) s)))) size)
  where
    size : length (prefixed lw str) ≡ lw + length str
    size = omega (arith, length-append (to_le lw (length str)) str, length-to_le lw (length str))

contents_of-nil : (bytes : Bytes) → contents_of bytes [] ≡ bytes
unfolding contents_of
contents_of-nil [] = refl
contents_of-nil (b ∷ bs) = refl

-- What was written to a fresh stream is what `take_data` gives.
pub take_data-write_data : (bytes : Bytes) → (take_data (write_data bytes empty)).0 ≡ bytes
unfolding take_data write_data empty
take_data-write_data bytes = contents_of-nil bytes
