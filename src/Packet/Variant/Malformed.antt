-- ===== src/Packet/Variant/Malformed.antt =====
-- packet_variant.hpp: `deserialize` on any bytes.
use gtproxy.Prelude.{
  ℕ, zero, suc, ◌<◌, ◌≡◌, sym, ◌∙◌, Bool, true, false, List, [], ◌∷◌, inl, inr, Bool-cases, not,
  Bytes, length, subst, ◌==◌, if◌then◌else◌,
}
use gtproxy.Utils.ByteStream.{
  ByteStream, done, to_le, of_span, size_mod, read_into, read_string_into, Reader, return,
}
use gtproxy.Utils.ByteStream.Reads.{Reads-uint, At-of_span, At, At-advance, advance, bind_done}
use gtproxy.Utils.ByteStream.Safety.{
  IsGood, Ends, IsSafe, IsSafe-bind, IsSafe-map, IsSafe-return, IsSafe-done, IsGood-of_span,
  At-IsGood, read_into-IsSafe, read_string_into-IsSafe,
}
use native.Mathlib.Nat.{mod-eq_of_lt}
use gtproxy.Packet.Variant.{
  Variant, read_value, read_entry, read_entries, read_counted, deserialize, length_width,
}

if-IsSafe {ℓ} :
    {A : Type ℓ} (b : Bool) (m k : Reader A) → IsSafe m → IsSafe k → IsSafe (if b then m else k)
if-IsSafe true m k hm hk = hm
if-IsSafe false m k hm hk = hk

abbrev word : Reader ℕ
word = read_into 4 0

word-IsSafe : IsSafe word
word-IsSafe = read_into-IsSafe 4 0

read_value-IsSafe : (type : ℕ) (vs : List Variant) → IsSafe (read_value type vs)
unfolding read_value
read_value-IsSafe type vs = if-IsSafe (type == 1) _ _ (IsSafe-map word _ word-IsSafe) (
    if-IsSafe (type == 2) _ _
      (IsSafe-map (read_string_into length_width []) _ (read_string_into-IsSafe length_width []))
      (if-IsSafe (type == 3) _ _
        (IsSafe-bind word _ word-IsSafe (λ x. IsSafe-map word _ word-IsSafe))
        (if-IsSafe (type == 4) _ _
          (IsSafe-bind word _ word-IsSafe
            (λ x. IsSafe-bind word _ word-IsSafe (λ y. IsSafe-map word _ word-IsSafe)))
          (if-IsSafe (type == 5) _ _ (IsSafe-map word _ word-IsSafe)
            (if-IsSafe (type == 9) _ _ (IsSafe-map word _ word-IsSafe) (IsSafe-return vs))))))

read_entry-IsSafe : (vs : List Variant) → IsSafe (read_entry vs)
unfolding read_entry
read_entry-IsSafe vs =
    IsSafe-bind (read_into 1 0) _ (read_into-IsSafe 1 0) (λ i.
      IsSafe-bind (read_into 1 0) _ (read_into-IsSafe 1 0) (λ type. read_value-IsSafe type vs))

read_entries-IsSafe : (n : ℕ) (vs : List Variant) → IsSafe (read_entries n vs)
unfolding read_entries
read_entries-IsSafe zero vs = IsSafe-return vs
read_entries-IsSafe (suc n) vs =
    IsSafe-bind (read_entry vs) (read_entries n) (read_entry-IsSafe vs) (read_entries-IsSafe n)

read_counted-IsSafe : (n : ℕ) (vs : List Variant) → IsSafe (read_counted n vs)
unfolding read_counted
read_counted-IsSafe n vs =
    if-IsSafe (n == 0) _ _ (IsSafe-return {A = Bool × List Variant} (false, vs))
      (IsSafe-map (read_entries n vs) (λ ws. (true, ws)) (read_entries-IsSafe n vs))

-- `deserialize` never reads outside its input, whatever the bytes are (their number is a
-- std::size_t).
pub deserialize-Ends :
    (vs : List Variant) (bytes : Bytes)
    → length bytes < size_mod
    → Ends (of_span bytes) (deserialize vs bytes)
unfolding deserialize
deserialize-Ends vs bytes h =
    IsSafe-bind (read_into 1 0) (λ n. read_counted n vs) (read_into-IsSafe 1 0)
      (λ n. read_counted-IsSafe n vs) (of_span bytes) (IsGood-of_span bytes h)

first_byte :
    (b : ℕ) (rest : Bytes)
    → b < 256
    → length (b ∷ rest) < size_mod
    → read_into 1 0 (of_span (b ∷ rest)) ≡ done b (advance 1 (of_span (b ∷ rest)))
unfolding to_le
first_byte b rest small h = Reads-uint 1 b 0 small (of_span (b ∷ rest)) rest (
    subst (λ (k : ℕ). At (of_span (b ∷ rest)) (k ∷ rest)) (sym (mod-eq_of_lt small))
      (At-of_span (b ∷ rest) h))

-- On input that is not empty, only the first byte decides what `deserialize` answers: it is false
-- exactly for a count of 0, also where the bytes end before the values that the count announces.
-- The first byte is a byte, and the size a std::size_t.
deserialize_flag :
    (vs : List Variant) (b : ℕ) (rest : Bytes)
    → b < 256
    → length (b ∷ rest) < size_mod
    → (ws : List Variant) × (t : ByteStream) × (deserialize vs (b ∷ rest)
        ≡ done (not (b == 0), ws) t)
unfolding deserialize read_counted
deserialize_flag vs b rest small h = elim (Bool-cases (b == 0)) [
  | inl zero_count ↦ (vs, s, to_count ∙ rw zero_count)
  | inr more ↦
      let (ws, t, e) = IsSafe-done (read_entries b vs) s (read_entries-IsSafe b vs) good in
      (ws, t, to_count ∙ rw more (bind_done (read_entries b vs) (λ l. return (true, l)) s e))
]
  where
    s : ByteStream
    s = advance 1 (of_span (b ∷ rest))

    good : IsGood s
    good =
        At-IsGood s rest (At-advance (of_span (b ∷ rest)) (b ∷ []) rest (At-of_span (b ∷ rest) h))

    to_count : deserialize vs (b ∷ rest) ≡ read_counted b vs s
    to_count =
        bind_done (read_into 1 0) (λ n. read_counted n vs) (of_span (b ∷ rest))
          (first_byte b rest small h)
