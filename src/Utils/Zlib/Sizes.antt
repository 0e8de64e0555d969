-- ===== src/Utils/Zlib/Sizes.antt =====
-- utils/zlib.hpp: what the vector holds after `decompress_zlib`, and what item_database.hpp reads with it.
use gtproxy.Prelude.{
  length-take, length-replicate, if◌then◌else◌, ℕ, ◌<◌, ◌≡◌, ◌≢◌, refl, sym, ap, ◌∙◌, arith, Bytes,
  [], ◌∷◌, ◌++◌, append_assoc, length, List, Bool, true, ltb, length-append, replicate, append-nil,
}
use gtproxy.Utils.ByteStream.{resize}
use gtproxy.Utils.Zlib.{
  verdict, Status, Inflate, stream_end, stream_error, other, append_all, decompress_zlib,
}

-- All output of the calls of `inflate`, in order.
abbrev pub output : List Bytes → Bytes
output [] = []
output (chunk ∷ chunks) = chunk ++ output chunks

append_all-output :
    (out : Bytes) (chunks : List Bytes) → append_all out chunks ≡ out ++ output chunks
unfolding append_all
append_all-output out [] = sym (append-nil out)
append_all-output out (chunk ∷ chunks) =
    append_all-output (out ++ chunk) chunks ∙ append_assoc out chunk (output chunks)

length-resize : (n : ℕ) (old : Bytes) → length (resize n old) ≡ n
unfolding resize
length-resize n old = omega (
  arith,
  length-take n (old ++ replicate n 0),
  length-append old (replicate n 0),
  length-replicate {A = ℕ} n 0,
)

verdict-true :
    (status : Status) (n : ℕ) (all : Bytes) → 0 < n → verdict status n all ≡ true → length all ≡ n
unfolding verdict
verdict-true stream_end n all h e = ground arith
verdict-true stream_error n all h e = ground arith
verdict-true other n all h e = ground arith

length-zero : (str : Bytes) → length str ≡ 0 → str ≡ []
length-zero [] e = refl
length-zero (c ∷ cs) e = absurd (omega arith)

verdict-append_all :
    (status : Status) (n : ℕ) (start : Bytes) (chunks : List Bytes)
    → 0 < n
    → length start ≡ n
    → verdict status n (append_all start chunks) ≡ true
    → append_all start chunks ≡ start
verdict-append_all status n start chunks h size e =
    let all : append_all start chunks ≡ start ++ output chunks = append_all-output start chunks in
    let nothing : output chunks ≡ [] = length-zero (output chunks) (
      omega (
        arith,
        size,
        ap length all,
        length-append start (output chunks),
        verdict-true status n (append_all start chunks) h e,
      )) in
    all ∙ rw nothing (append-nil start)

-- Without an expected size, data that is not empty and that inflate reads to its end gives all of its
-- output, whatever the vector held before.
decompress_zlib_unsized :
    (inflate : Inflate) (compressed_data old : Bytes)
    → compressed_data ≢ []
    → (inflate compressed_data).1 ≡ stream_end
    → decompress_zlib inflate compressed_data old 0 ≡ (true, output (inflate compressed_data).0)
unfolding decompress_zlib
decompress_zlib_unsized inflate [] old ne e = absurd (ne refl)
decompress_zlib_unsized inflate (c ∷ cs) old ne e =
    rw (e, append_all-output [] (inflate (c ∷ cs)).0) refl

-- With an expected size, what the vector holds after the result true is what `resize` gave: nothing of
-- the output of inflate is in it.
pub decompress_zlib_sized :
    (inflate : Inflate) (compressed_data old all : Bytes) (n : ℕ)
    → 0 < n
    → decompress_zlib inflate compressed_data old n ≡ (true, all)
    → all ≡ resize n old
unfolding decompress_zlib
decompress_zlib_sized inflate [] old all n h e = ground arith
decompress_zlib_sized inflate (c ∷ cs) old all n h e =
    let positive : ltb 0 n ≡ true = ground arith in
    let start : (if ltb 0 n then resize n old else []) ≡ resize n old = rw positive refl in
    let whole = append_all (if ltb 0 n then resize n old else []) (inflate (c ∷ cs)).0 in
    let result : whole ≡ all = ap (λ (r : Bool × Bytes). r.1) e in
    let done : verdict (inflate (c ∷ cs)).1 n whole ≡ true = ap (λ (r : Bool × Bytes). r.0) e in
    sym result
    ∙ verdict-append_all (inflate (c ∷ cs)).1 n _ (inflate (c ∷ cs)).0 h
        (ap length start ∙ length-resize n old) done
    ∙ start
