-- ===== src/Tests/Streams.antt =====
-- utils/byte_stream.hpp on concrete streams.
use gtproxy.Prelude.{◌≡◌, refl, arith, true, false, [], ◌∷◌, Bytes}
use gtproxy.Utils.ByteStream.{
  done, fault, of_span, get_size, get_data, skip, read_data, read_string, backtrack,
}
use gtproxy.Utils.ByteStream.Reads.{advance}
use gtproxy.Utils.ByteStream.Safety.{read_data-skip}

-- A string of two bytes behind its length.
abbrev short_string : Bytes
short_string = 2 ∷ 0 ∷ b'o' ∷ b'k' ∷ []

abbrev ok : Bytes
ok = b'o' ∷ b'k' ∷ []

short_string_read :
    read_string 2 [] 0 (of_span short_string) ≡ done (true, ok) (advance 4 (of_span short_string))
unfolding read_string of_span
short_string_read = refl

-- A length that the stream does not hold is a refusal behind the length.
long_length_read :
    read_string 2 [] 0 (of_span (9 ∷ 0 ∷ [])) ≡ done (false, []) (advance 2 (of_span (9 ∷ 0 ∷ [])))
unfolding read_string of_span
long_length_read = refl

-- Backtracking undoes a skip.
backtrack-skip : backtrack 2 (skip 2 (of_span short_string)) ≡ of_span short_string
unfolding backtrack skip of_span
backtrack-skip = refl

read_data-skip_example : read_data 1 (skip 5 (of_span short_string)) ≡ fault
unfolding of_span get_size get_data
read_data-skip_example =
    read_data-skip (of_span short_string) 5 1 (omega arith, omega arith) (omega arith) (omega arith)
      (omega arith)
