-- ===== src/Utils/ByteStream/Safety.antt =====
-- byte_stream.hpp: reads on any input.
use gtproxy.Prelude.{
  ℕ, ◌+◌, ◌-◌, ◌%◌, ◌^◌, ◌≤◌, ◌<◌, ◌≡◌, refl, sym, ◌∙◌, arith, Bool, true, false, none, some, ◌⊎◌,
  inl, inr, Bytes, length, take, drop, subst, ltb, leb, if◌then◌else◌, Bool-cases, ◌==◌,
}
use gtproxy.Utils.ByteStream.{
  ByteStream, Outcome, done, fault, Reader, ◌>>=◌, return, size_mod, get_data, of_span, contents_of,
  get_size, left, skip, copy, read_data, read_uint, read_block, read_string, read_into,
  read_string_into,
}
use native.Mathlib.Decide.{dec_le}
use gtproxy.Utils.ByteStream.Reads.{At, advance}

-- The position is inside the buffer, or just behind it.
abbrev pub IsGood : ByteStream → Type 0
IsGood s = (s.read_offset ≤ get_size s) × (get_size s < size_mod)

-- No access out of bounds; the bytes are as before, and the position has not moved back.
abbrev pub Ends {ℓ} : {A : Type ℓ} → ByteStream → Outcome A → Type 0
Ends s (done a t) =
    (get_data t ≡ get_data s) × (s.read_offset ≤ t.read_offset) × (t.read_offset ≤ get_size s)
Ends s fault = ⊥

abbrev pub IsSafe {ℓ} : {A : Type ℓ} → Reader A → Type 0
IsSafe m = (s : ByteStream) → IsGood s → Ends s (m s)

left-IsGood : (s : ByteStream) → IsGood s → left s ≡ get_size s - s.read_offset
unfolding left
left-IsGood s g = omega arith

read_data_fits :
    (n : ℕ) (s : ByteStream)
    → IsGood s
    → s.read_offset + n ≤ get_size s
    → read_data n s ≡ done (some (take n (drop s.read_offset (get_data s)))) (advance n s)
unfolding read_data copy skip
read_data_fits n s g fits =
    let small : (s.read_offset + n) % size_mod ≡ s.read_offset + n = omega arith in
    rw (test_left, test_copy, small)
  where
    test_left : ltb (left s) n ≡ false
    test_left = ground (arith, left-IsGood s g)

    test_copy : leb (s.read_offset + n) (get_size s) ≡ true
    test_copy = ground arith

read_data_over :
    (n : ℕ) (s : ByteStream)
    → IsGood s
    → get_size s < s.read_offset + n
    → read_data n s ≡ done none s
unfolding read_data
read_data_over n s g over = rw test_left
  where
    test_left : ltb (left s) n ≡ true
    test_left = ground (arith, left-IsGood s g)

-- `read_data` on a stream whose position is inside the buffer: if the bytes asked for are there,
-- these and the position behind them, or else a refusal that leaves the stream as it was.
pub read_data_cases :
    (n : ℕ) (s : ByteStream)
    → IsGood s
    → ((s.read_offset + n ≤ get_size s)
        × (read_data n s ≡ done (some (take n (drop s.read_offset (get_data s)))) (advance n s)))
      ⊎ ((get_size s < s.read_offset + n) × (read_data n s ≡ done none s))
unfolding read_data copy skip
read_data_cases n s g = elim (dec_le (s.read_offset + n) (get_size s)) [
  | yes fits ↦ inl (fits, read_data_fits n s g fits)
  | no over ↦ inr (omega arith, read_data_over n s g (omega arith))
]

pub IsSafe-return {ℓ} : {A : Type ℓ} (a : A) → IsSafe (return a)
IsSafe-return a s g = (refl, omega arith, g.0)

Ends-trans {ℓ} :
    {A : Type ℓ} (s t : ByteStream) (o : Outcome A)
    → get_data t ≡ get_data s
    → s.read_offset ≤ t.read_offset
    → Ends t o
    → Ends s o
unfolding get_size
Ends-trans s t (done a u) d l (e, k, b) =
    (e ∙ d, omega arith, subst (λ (x : Bytes). u.read_offset ≤ length x) d b)
Ends-trans s t fault d l e = e

pub IsGood-next :
    (s t : ByteStream) → IsGood s → get_data t ≡ get_data s → t.read_offset ≤ get_size s → IsGood t
unfolding get_size
IsGood-next s t g d b = (
  subst (λ (x : Bytes). t.read_offset ≤ length x) (sym d) b,
  subst (λ (x : Bytes). length x < size_mod) (sym d) g.1,
)

Ends-bind {ℓ κ} :
    {A : Type ℓ} {B : Type κ} (f : A → Reader B) (s : ByteStream) (o : Outcome A)
    → IsGood s
    → Ends s o
    → ((a : A) → IsSafe (f a))
    → Ends s (elim o [ done a t ↦ f a t | fault ↦ fault ])
Ends-bind f s (done a t) g (d, l, b) hf =
    Ends-trans s t (f a t) d l (hf a t (IsGood-next s t g d b))
Ends-bind f s fault g e hf = e

-- Code that is safe step by step is safe.
pub IsSafe-bind {ℓ κ} :
    {A : Type ℓ} {B : Type κ} (m : Reader A) (f : A → Reader B)
    → IsSafe m
    → ((a : A) → IsSafe (f a))
    → IsSafe (m >>= f)
IsSafe-bind m f hm hf s g = Ends-bind f s (m s) g (hm s g) hf

pub IsSafe-map {ℓ κ} :
    {A : Type ℓ} {B : Type κ} (m : Reader A) (h : A → B)
    → IsSafe m
    → IsSafe (m >>= λ a. return (h a))
IsSafe-map m h hm = IsSafe-bind m (λ a. return (h a)) hm (λ a. IsSafe-return (h a))

pub read_data-IsSafe : (n : ℕ) → IsSafe (read_data n)
unfolding get_data
read_data-IsSafe n s g = elim (read_data_cases n s g) [
  | inl (fits, e) ↦ subst (Ends s) (sym e) (refl, omega arith, fits)
  | inr (over, e) ↦ subst (Ends s) (sym e) (refl, omega arith, g.0)
]

pub read_uint-IsSafe : (w v : ℕ) → IsSafe (read_uint w v)
unfolding read_uint
read_uint-IsSafe w v = IsSafe-map (read_data w) _ (read_data-IsSafe w)

read_block-IsSafe : (n : ℕ) (str : Bytes) → IsSafe (read_block n str)
unfolding read_block
read_block-IsSafe n str s g = elim (Bool-cases (ltb (left s) n)) [
  | inl e ↦ rw e (refl, omega arith, g.0)
  | inr e ↦ rw e (IsSafe-map (read_data n) _ (read_data-IsSafe n) s g)
]

found_block-IsSafe :
    (found : Bool) (n : ℕ) (str : Bytes)
    → IsSafe (if found then read_block n str else return (false, str))
found_block-IsSafe true n str = read_block-IsSafe n str
found_block-IsSafe false n str = IsSafe-return {A = Bool × Bytes} (false, str)

-- On a stream whose position is inside the buffer, no `read` of a string or a vector leaves the
-- buffer, whatever length the bytes announce; the bytes stay and the position does not move back.
pub read_string-IsSafe :
    (lw : ℕ) (str : Bytes) (length : ℕ) (s : ByteStream)
    → IsGood s
    → Ends s (read_string lw str length s)
unfolding read_string
read_string-IsSafe lw str length s g = elim (Bool-cases (length == 0)) [
  | inl e ↦ rw e (
      IsSafe-bind (read_uint lw length) _ (read_uint-IsSafe lw length)
        (λ (found, n). found_block-IsSafe found n str) s g)
  | inr e ↦ rw e (read_block-IsSafe length str s g)
]

pub read_into-IsSafe : (w v : ℕ) → IsSafe (read_into w v)
read_into-IsSafe w v = IsSafe-map (read_uint w v) (λ r. r.1) (read_uint-IsSafe w v)

pub read_string_into-IsSafe : (lw : ℕ) (str : Bytes) → IsSafe (read_string_into lw str)
read_string_into-IsSafe lw str =
    IsSafe-map (read_string lw str 0) (λ r. r.1) (read_string-IsSafe lw str 0)

-- After a `skip` past the end, from a position inside the buffer, `get_size() - read_offset_`
-- wraps round, so the check of the next read passes and it copies from outside the buffer
-- (positions and counts below 2 ^ 63).
pub read_data-skip :
    (s : ByteStream) (n k : ℕ)
    → IsGood s
    → get_size s < s.read_offset + n
    → s.read_offset + n < 2 ^ 63
    → k < 2 ^ 63
    → read_data k (skip n s) ≡ fault
unfolding read_data copy skip left get_size get_data
read_data-skip s n k g past small h =
    let inside : (s.read_offset + n) % size_mod ≡ s.read_offset + n = omega arith in
    rw (inside, test_left, test_copy)
  where
    test_left : ltb ((get_size s + size_mod - (s.read_offset + n)) % size_mod) k ≡ false
    test_left = ground arith

    test_copy : leb (s.read_offset + n + k) (get_size s) ≡ false
    test_copy = ground arith

Ends-done {ℓ} :
    {A : Type ℓ} (s : ByteStream) (o : Outcome A)
    → Ends s o
    → (a : A) × (t : ByteStream) × (o ≡ done a t)
Ends-done s (done a t) e = (a, t, refl)
Ends-done s fault e = absurd e

-- Safe code returns.
pub IsSafe-done {ℓ} :
    {A : Type ℓ} (m : Reader A) (s : ByteStream)
    → IsSafe m
    → IsGood s
    → (a : A) × (t : ByteStream) × (m s ≡ done a t)
IsSafe-done m s h g = Ends-done s (m s) (h s g)

pub IsGood-of_span : (bytes : Bytes) → length bytes < size_mod → IsGood (of_span bytes)
unfolding of_span get_size get_data contents_of
IsGood-of_span bytes h = (omega arith, h)

pub At-IsGood : (s : ByteStream) (l : Bytes) → At s l → IsGood s
At-IsGood s l (d, o, h) = (omega arith, h)
