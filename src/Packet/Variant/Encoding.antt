-- ===== src/Packet/Variant/Encoding.antt =====
-- The bytes that `serialize` writes, described without a stream.
use gtproxy.Prelude.{
  ℕ, suc, ◌%◌, ◌^◌, ◌≡◌, refl, ap, ◌∙◌, List, [], ◌∷◌, ◌++◌, append_assoc, append-nil, Bytes,
  length,
}
use gtproxy.Utils.ByteStream.{ByteStream, to_le, write_data, write_uint, write_string, take_data}
use gtproxy.Utils.ByteStream.Writes.{take_data-write_data}
use gtproxy.Packet.Variant.{
  Variant, float, string, vec2, vec3, unsigned, signed, get_type, write_value, write_values,
  serialize, length_width,
}

abbrev pub payload : Variant → Bytes
payload (float x) = to_le 4 x
payload (string s) = to_le length_width (length s % 256 ^ length_width) ++ s
payload (vec2 x y) = to_le 4 x ++ to_le 4 y
payload (vec3 x y z) = to_le 4 x ++ (to_le 4 y ++ to_le 4 z)
payload (unsigned n) = to_le 4 n
payload (signed n) = to_le 4 n

abbrev pub entries : ℕ → List Variant → Bytes
entries i [] = []
entries i (v ∷ vs) =
    to_le 1 (i % 256) ++ (to_le 1 (get_type v) ++ (payload v ++ entries (suc i) vs))

write_value-payload : (v : Variant) (s : ByteStream) → write_value v s ≡ write_data (payload v) s
unfolding write_value write_data write_uint write_string
write_value-payload (float x) s = refl
write_value-payload (string str) s = simp append_assoc
write_value-payload (vec2 x y) s = simp append_assoc
write_value-payload (vec3 x y z) s = simp append_assoc
write_value-payload (unsigned n) s = refl
write_value-payload (signed n) s = refl

write_values-entries :
    (i : ℕ) (vs : List Variant) (s : ByteStream) → write_values i vs s ≡ write_data (entries i vs) s
unfolding write_values write_data write_uint
write_values-entries i [] s = simp append-nil
write_values-entries i (v ∷ vs) s =
    write_values-entries (suc i) vs _ ∙ rw (write_value-payload v) (simp append_assoc)

-- `serialize` writes the count, and then each value behind its index and type.
pub serialize-entries :
    (vs : List Variant) → serialize vs ≡ to_le 1 (length vs % 256) ++ entries 0 vs
unfolding serialize write_data write_uint
serialize-entries vs =
    ap (λ (s : ByteStream). (take_data s).0) (write_values-entries 0 vs _)
    ∙ take_data-write_data (to_le 1 (length vs % 256) ++ entries 0 vs)
