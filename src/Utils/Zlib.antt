-- ===== src/Utils/Zlib.antt =====
-- utils/zlib.hpp: the loops around zlib, which is a parameter.
pub mod Sizes
use gtproxy.Prelude.{
  ℕ, ◌^◌, ◌&&◌, not, Bool, true, false, List, [], ◌∷◌, ◌++◌, Bytes, ltb, ◌==◌, if◌then◌else◌,
  length, Option, none, some,
}
use gtproxy.Utils.TextParse.{is_empty}
use gtproxy.Utils.ByteStream.{resize}

-- What the calls of `inflate` in one loop gave: their output in order, and the last return value.
pub data Status : Type 0 where
  stream_end stream_error other : Status

abbrev pub Inflate : Type 0
Inflate = Bytes → List Bytes × Status

unfoldable pub append_all : Bytes → List Bytes → Bytes
append_all out [] = out
append_all out (chunk ∷ chunks) = append_all (out ++ chunk) chunks

-- The tests behind the loop: the last return value, and the size if one is expected.
unfoldable pub verdict : Status → ℕ → Bytes → Bool
verdict stream_end expected_size all =
    not (ltb 0 expected_size && not (length all == expected_size))
verdict stream_error expected_size all = false
verdict other expected_size all = false

-- `decompress_zlib` into a vector that held `old`: the result, and what the vector holds then.
-- `inflateInit` is taken to succeed.
unfoldable pub decompress_zlib : Inflate → Bytes → Bytes → ℕ → Bool × Bytes
unfolding append_all resize verdict
decompress_zlib inflate compressed_data old expected_size =
    if is_empty compressed_data
    then (false, old)
    else let start = if ltb 0 expected_size then resize expected_size old else [] in
      let (chunks, status) = inflate compressed_data in
      let all = append_all start chunks in (verdict status expected_size all, all)

-- `deflate` with a buffer of the size that `compressBound` gives, `none` where it fails.
abbrev pub Deflate : Type 0
Deflate = Bytes → Option Bytes

unfoldable pub compress_zlib : Deflate → Bytes → Option Bytes
compress_zlib deflate bytes = if is_empty bytes then none else deflate bytes
