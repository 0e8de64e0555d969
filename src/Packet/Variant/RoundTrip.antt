-- ===== src/Packet/Variant/RoundTrip.antt =====
-- packet_variant.hpp: `deserialize` on what `serialize` wrote.
use gtproxy.Prelude.{
  ℕ, suc, ◌%◌, ◌^◌, ◌<◌, ◌≡◌, sym, ap, ◌∙◌, arith, true, false, List, [], ◌∷◌, ◌++◌, append_assoc,
  append-nil, Bytes, length, subst, ◌==◌,
}
use gtproxy.Utils.ByteStream.{
  ByteStream, done, to_le, of_span, size_mod, read_into, read_string_into, Reader, ◌>>=◌, return,
}
use gtproxy.Utils.ByteStream.Reads.{
  Reads, Reads-bind, Reads-return, Reads-uint, Reads-string, Reads-map, prefixed, At, bind_done,
  At-of_span, advance,
}
use gtproxy.Packet.Variant.{
  Variant, float, string, vec2, vec3, unsigned, signed, get_type, read_value, read_entry,
  read_entries, read_counted, deserialize, serialize, length_width,
}
use gtproxy.Packet.Variant.Encoding.{payload, entries, serialize-entries}
use native.Mathlib.Nat.{mod-eq_of_lt}

-- Each word fits four bytes, and a string's length fits its prefix.
abbrev pub Fits : Variant → Type 0
Fits (float x) = x < 2 ^ 32
Fits (string s) = length s < 2 ^ 32
Fits (vec2 x y) = (x < 2 ^ 32) × (y < 2 ^ 32)
Fits (vec3 x y z) = (x < 2 ^ 32) × (y < 2 ^ 32) × (z < 2 ^ 32)
Fits (unsigned n) = n < 2 ^ 32
Fits (signed n) = n < 2 ^ 32

abbrev pub AllFit : List Variant → Type 0
AllFit [] = Unit
AllFit (v ∷ vs) = Fits v × AllFit vs

module _ (x : ℕ) (h : x < 2 ^ 32) where
  Reads-word {ℓ} :
      {B : Type ℓ} (f : ℕ → Reader B) (cs : Bytes) (b : B)
      → Reads (f x) cs b
      → Reads (read_into 4 0 >>= f) (to_le 4 x ++ cs) b
  Reads-word f cs b k = Reads-bind (read_into 4 0) f (to_le 4 x) cs x b (Reads-uint 4 x 0 h) k

  Reads-last_word {ℓ} :
      {B : Type ℓ} (f : ℕ → B) → Reads (read_into 4 0 >>= λ y. return (f y)) (to_le 4 x) (f x)
  Reads-last_word f = Reads-map (read_into 4 0) f (to_le 4 x) x (Reads-uint 4 x 0 h)

-- An unbounded length is stored modulo 2 ^ 32, which changes no length that fits.
payload-string :
    (str : Bytes) → length str < 2 ^ 32 → prefixed length_width str ≡ payload (string str)
payload-string str h = ap (λ (k : ℕ). to_le length_width k ++ str) (sym (mod-eq_of_lt h))

read_value-payload :
    (v : Variant) (vs : List Variant)
    → Fits v
    → Reads (read_value (get_type v) vs) (payload v) (vs ++ v ∷ [])
unfolding read_value get_type
read_value-payload (float x) vs h = Reads-last_word x h (λ y. vs ++ float y ∷ [])
read_value-payload (string str) vs h =
    subst (λ (bs : Bytes). Reads (read_value 2 vs) bs (vs ++ string str ∷ []))
      (payload-string str h)
      (Reads-map (read_string_into length_width []) (λ s. vs ++ string s ∷ [])
        (prefixed length_width str) str (Reads-string length_width str [] h))
read_value-payload (vec2 x y) vs h =
    Reads-word x h.0 _ (to_le 4 y) _ (Reads-last_word y h.1 (λ z. vs ++ vec2 x z ∷ []))
read_value-payload (vec3 x y z) vs h =
    Reads-word x h.0 _ (to_le 4 y ++ to_le 4 z) _
      (Reads-word y h.1 _ (to_le 4 z) _ (Reads-last_word z h.2 (λ w. vs ++ vec3 x y w ∷ [])))
read_value-payload (unsigned n) vs h = Reads-last_word n h (λ y. vs ++ unsigned y ∷ [])
read_value-payload (signed n) vs h = Reads-last_word n h (λ y. vs ++ signed y ∷ [])

get_type-lt : (v : Variant) → get_type v < 256
unfolding get_type
get_type-lt (float x) = omega arith
get_type-lt (string str) = omega arith
get_type-lt (vec2 x y) = omega arith
get_type-lt (vec3 x y z) = omega arith
get_type-lt (unsigned n) = omega arith
get_type-lt (signed n) = omega arith

abbrev entry : ℕ → Variant → Bytes
entry i v = to_le 1 (i % 256) ++ (to_le 1 (get_type v) ++ payload v)

read_entry-entry :
    (i : ℕ) (v : Variant) (vs : List Variant)
    → Fits v
    → Reads (read_entry vs) (entry i v) (vs ++ v ∷ [])
unfolding read_entry
read_entry-entry i v vs h =
    Reads-bind (read_into 1 0) _ (to_le 1 (i % 256)) _ (i % 256) _
      (Reads-uint 1 (i % 256) 0 (omega arith))
      (Reads-bind (read_into 1 0) (λ type. read_value type vs) (to_le 1 (get_type v)) (payload v)
        (get_type v) _ (Reads-uint 1 (get_type v) 0 (get_type-lt v)) (read_value-payload v vs h))

entries-cons :
    (i : ℕ) (v : Variant) (vs : List Variant) → entry i v ++ entries (suc i) vs ≡ entries i (v ∷ vs)
entries-cons i v vs = simp append_assoc

read_entries-entries :
    (i : ℕ) (ws vs : List Variant)
    → AllFit ws
    → Reads (read_entries (length ws) vs) (entries i ws) (vs ++ ws)
unfolding read_entries
read_entries-entries i [] vs h =
    subst (λ (l : List Variant). Reads (return vs) [] l) (sym (append-nil vs)) (Reads-return vs)
read_entries-entries i (w ∷ ws) vs h =
    subst (λ (bs : Bytes). Reads (read_entries (length (w ∷ ws)) vs) bs (vs ++ w ∷ ws))
      (entries-cons i w ws)
      (Reads-bind (read_entry vs) (read_entries (length ws)) (entry i w) (entries (suc i) ws)
        (vs ++ w ∷ []) (vs ++ w ∷ ws) (read_entry-entry i w vs h.0)
        (subst (Reads (read_entries (length ws) (vs ++ w ∷ [])) (entries (suc i) ws))
          (append_assoc vs (w ∷ []) ws) (read_entries-entries (suc i) ws (vs ++ w ∷ []) h.1)))

read_counted-entries :
    (ws vs : List Variant)
    → AllFit ws
    → 0 < length ws
    → Reads (read_counted (length ws) vs) (entries 0 ws) (true, vs ++ ws)
unfolding read_counted
read_counted-entries ws vs h pos =
    let test : (length ws == 0) ≡ false = ground arith in
    rw test (
      Reads-map (read_entries (length ws) vs) (λ l. (true, l)) (entries 0 ws) (vs ++ ws)
        (read_entries-entries 0 ws vs h))

read-serialize :
    (vs : List Variant)
    → AllFit vs
    → 0 < length vs
    → length vs < 256
    → Reads (read_into 1 0 >>= λ size. read_counted size []) (serialize vs) (true, vs)
read-serialize vs h pos few =
    let whole : to_le 1 (length vs) ++ entries 0 vs ≡ serialize vs =
      ap (λ (k : ℕ). to_le 1 k ++ entries 0 vs) (sym (mod-eq_of_lt few))
      ∙ sym (serialize-entries vs) in
    subst (λ (bs : Bytes). Reads (read_into 1 0 >>= λ size. read_counted size []) bs (true, vs))
      whole
      (Reads-bind (read_into 1 0) (λ size. read_counted size []) (to_le 1 (length vs))
        (entries 0 vs) (length vs) (true, vs) (Reads-uint 1 (length vs) 0 few)
        (read_counted-entries vs [] h pos))

-- `deserialize` on a new object gives back the values that `serialize` was given: 1 to 255 of them,
-- each fitting its field, in a buffer whose size is a std::size_t.
pub deserialize-serialize :
    (vs : List Variant)
    → AllFit vs
    → 0 < length vs
    → length vs < 256
    → length (serialize vs) < size_mod
    → (t : ByteStream) × (deserialize [] (serialize vs) ≡ done (true, vs) t)
unfolding deserialize
deserialize-serialize vs h pos few small = (
  advance (length (serialize vs)) (of_span (serialize vs)),
  read-serialize vs h pos few (of_span (serialize vs)) [] (
      subst (At (of_span (serialize vs))) (sym (append-nil (serialize vs)))
        (At-of_span (serialize vs) small)),
)

-- What stands behind the values is not looked at.
pub deserialize-serialize_rest :
    (vs : List Variant) (rest : Bytes)
    → AllFit vs
    → 0 < length vs
    → length vs < 256
    → length (serialize vs ++ rest) < size_mod
    → (t : ByteStream) × (deserialize [] (serialize vs ++ rest) ≡ done (true, vs) t)
unfolding deserialize
deserialize-serialize_rest vs rest h pos few small = (
  advance (length (serialize vs)) (of_span (serialize vs ++ rest)),
  read-serialize vs h pos few (of_span (serialize vs ++ rest)) rest
      (At-of_span (serialize vs ++ rest) small),
)

-- The count is one byte: if the number of values is a multiple of 256, `deserialize` refuses what
-- `serialize` wrote, and keeps what the object held. The buffer's size is a std::size_t.
deserialize-serialize_wraps :
    (vs ws : List Variant)
    → length vs % 256 ≡ 0
    → length (serialize vs) < size_mod
    → (t : ByteStream) × (deserialize ws (serialize vs) ≡ done (false, ws) t)
unfolding deserialize read_counted
deserialize-serialize_wraps vs ws none_left small = (
  advance (length (to_le 1 0)) (of_span (serialize vs)),
  bind_done (read_into 1 0) (λ size. read_counted size ws) (of_span (serialize vs)) count,
)
  where
    count :
        read_into 1 0 (of_span (serialize vs))
        ≡ done 0 (advance (length (to_le 1 0)) (of_span (serialize vs)))
    count = Reads-uint 1 0 0 (omega arith) (of_span (serialize vs)) (entries 0 vs) (
        subst (At (of_span (serialize vs)))
          (serialize-entries vs ∙ ap (λ (k : ℕ). to_le 1 k ++ entries 0 vs) none_left)
          (At-of_span (serialize vs) small))
