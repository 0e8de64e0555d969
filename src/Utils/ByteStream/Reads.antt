-- ===== src/Utils/ByteStream/Reads.antt =====
-- A calculus for readers on input that is all there: `Reads m bs a` says that `m` takes exactly
-- the bytes `bs`, wherever they stand, and returns `a`.
use gtproxy.Prelude.{
  ℕ, ◌+◌, ◌^◌, ◌<◌, ◌≡◌, refl, sym, ap, ◌∙◌, arith, true, false, some, [], ◌++◌, append_assoc,
  append-nil, Bytes, length, take, drop, length-append, take-length_append, drop-length_append,
  drop-add, subst, ltb,
}
use gtproxy.Utils.ByteStream.{
  ByteStream, done, fault, Reader, ◌>>=◌, return, size_mod, of_span, get_data, get_size, to_le,
  left, skip, copy, read_data, read_uint, read_block, read_string, read_into, read_string_into,
  skip_bytes,
}
use gtproxy.Utils.ByteStream.Words.{length-to_le, of_le-to_le}

abbrev pub advance : ℕ → ByteStream → ByteStream
advance n s = record s { read_offset = s.read_offset + n }

-- The bytes from the read position on are `l`.
abbrev pub At : ByteStream → Bytes → Type 0
At s l =
    (drop s.read_offset (get_data s) ≡ l)
    × (s.read_offset + length l ≡ get_size s)
    × (get_size s < size_mod)

abbrev pub Reads {ℓ} : {A : Type ℓ} → Reader A → Bytes → A → Type ℓ
Reads m bs a =
    (s : ByteStream) (rest : Bytes) → At s (bs ++ rest) → m s ≡ done a (advance (length bs) s)

pub At-of_span : (bytes : Bytes) → length bytes < size_mod → At (of_span bytes) bytes
unfolding of_span get_data get_size
At-of_span bytes h = (refl, omega arith, h)

pub At-advance :
    (s : ByteStream) (bs rest : Bytes) → At s (bs ++ rest) → At (advance (length bs) s) rest
unfolding get_data get_size
At-advance s bs rest (d, o, h) = (
  drop-add s.read_offset (length bs) (get_data s)
      ∙ ap (drop (length bs)) d
      ∙ drop-length_append bs rest,
  omega (arith, length-append bs rest),
  h,
)

-- `skip` inside the input does not wrap.
skip-At :
    (s : ByteStream) (bs rest : Bytes)
    → At s (bs ++ rest)
    → skip (length bs) s ≡ advance (length bs) s
unfolding skip
skip-At s bs rest (d, o, h) =
    ap (λ (k : ℕ). record s { read_offset = k }) (omega (arith, length-append bs rest))

pub left-At : (s : ByteStream) (l : Bytes) → At s l → left s ≡ length l
unfolding left
left-At s l (d, o, h) = omega arith

left-ge : (s : ByteStream) (bs rest : Bytes) → At s (bs ++ rest) → ltb (left s) (length bs) ≡ false
left-ge s bs rest at = ground (arith, left-At s (bs ++ rest) at, length-append bs rest)

copy-At :
    (s : ByteStream) (bs rest : Bytes)
    → At s (bs ++ rest)
    → copy (length bs) s ≡ done (some bs) (advance (length bs) s)
unfolding copy
copy-At s bs rest (d, o, h) = ground (
  arith,
  length-append bs rest,
  skip-At s bs rest (d, o, h),
  ap (take (length bs)) d,
  take-length_append bs rest,
)

pub read_data-At :
    (s : ByteStream) (bs rest : Bytes)
    → At s (bs ++ rest)
    → read_data (length bs) s ≡ done (some bs) (advance (length bs) s)
unfolding read_data
read_data-At s bs rest h =
    ground (arith, left-At s (bs ++ rest) h, length-append bs rest, copy-At s bs rest h)

-- A bind goes on with the result of its first part.
pub bind_done {ℓ κ} :
    {A : Type ℓ} {B : Type κ} (m : Reader A) (f : A → Reader B) (s : ByteStream) {a : A}
    {t : ByteStream}
    → m s ≡ done a t
    → (m >>= f) s ≡ f a t
bind_done m f s e = rw (e, ◌>>=◌)

bind_fault {ℓ κ} :
    {A : Type ℓ} {B : Type κ} (m : Reader A) (f : A → Reader B) (s : ByteStream)
    → m s ≡ fault
    → (m >>= f) s ≡ fault
bind_fault m f s e = rw (e, ◌>>=◌)

pub Reads-return {ℓ} : {A : Type ℓ} (a : A) → Reads (return a) [] a
Reads-return a s rest h = ap (λ (k : ℕ). done a (record s { read_offset = k })) (omega arith)

pub Reads-bind {ℓ κ} :
    {A : Type ℓ} {B : Type κ} (m : Reader A) (f : A → Reader B) (bs cs : Bytes) (a : A) (b : B)
    → Reads m bs a
    → Reads (f a) cs b
    → Reads (m >>= f) (bs ++ cs) b
Reads-bind m f bs cs a b hm hf s rest h =
    let at : At s (bs ++ (cs ++ rest)) = subst (At s) (append_assoc bs cs rest) h in
    bind_done m f s (hm s (cs ++ rest) at)
    ∙ hf (advance (length bs) s) rest (At-advance s bs (cs ++ rest) at)
    ∙ ap (λ (k : ℕ). done b (record s { read_offset = k })) (omega (arith, length-append bs cs))

pub Reads-skip : (junk : Bytes) → Reads (skip_bytes (length junk)) junk tt
Reads-skip junk s rest h = ap (done tt) (skip-At s junk rest h)

-- An unsigned integer of `w` bytes that fits is read back.
pub read_uint-to_le : (w v old : ℕ) → v < 256 ^ w → Reads (read_uint w old) (to_le w v) (true, v)
unfolding read_uint
read_uint-to_le w v old h s rest at =
    bind_done (read_data w) _ s
      (ap (λ (k : ℕ). read_data k s) (sym (length-to_le w v)) ∙ read_data-At s (to_le w v) rest at)
    ∙ ap (λ (k : ℕ). done (true, k) (advance (length (to_le w v)) s)) (of_le-to_le w v h)

pub Reads-uint : (w v old : ℕ) → v < 256 ^ w → Reads (read_into w old) (to_le w v) v
Reads-uint w v old h s rest at =
    bind_done (read_uint w old) _ s (read_uint-to_le w v old h s rest at)

pub read_block-At : (str old : Bytes) → Reads (read_block (length str) old) str (true, str)
unfolding read_block
read_block-At str old s rest at =
    rw (left-ge s str rest at) (bind_done (read_data (length str)) _ s (read_data-At s str rest at))

-- What `write(str)` puts on the stream.
abbrev pub prefixed : ℕ → Bytes → Bytes
prefixed lw str = to_le lw (length str) ++ str

pub read_string-prefixed :
    (lw : ℕ) (str old : Bytes)
    → length str < 256 ^ lw
    → Reads (read_string lw old 0) (prefixed lw str) (true, str)
unfolding read_string
read_string-prefixed lw str old h =
    Reads-bind (read_uint lw 0) _ (to_le lw (length str)) str (true, length str) (true, str)
      (read_uint-to_le lw (length str) 0 h) (read_block-At str old)

pub Reads-string :
    (lw : ℕ) (str old : Bytes)
    → length str < 256 ^ lw
    → Reads (read_string_into lw old) (prefixed lw str) str
Reads-string lw str old h s rest at =
    bind_done (read_string lw old 0) _ s (read_string-prefixed lw str old h s rest at)

-- The last read of a block, whose value goes into the result.
pub Reads-map {ℓ κ} :
    {A : Type ℓ} {B : Type κ} (m : Reader A) (f : A → B) (bs : Bytes) (a : A)
    → Reads m bs a
    → Reads (m >>= λ x. return (f x)) bs (f a)
Reads-map m f bs a h =
    subst (λ (l : Bytes). Reads (m >>= λ x. return (f x)) l (f a)) (append-nil bs)
      (Reads-bind m (λ x. return (f x)) bs [] a (f a) h (Reads-return (f a)))
