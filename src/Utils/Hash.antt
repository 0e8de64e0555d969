-- ===== src/Utils/Hash.antt =====
-- utils/hash.hpp: the two hashes. A std::uint32_t wraps at 2 ^ 32, and a char has a sign.
use Prim.Native.Nat.{bit_xor}
use gtproxy.Prelude.{
  ℕ, zero, suc, ◌+◌, ◌-◌, ◌*◌, ◌/◌, ◌%◌, ◌^◌, ◌<◌, ◌≡◌, refl, arith, false, [], ◌∷◌, Option, none,
  some, Bytes, length, ltb, ◌==◌, if◌then◌else◌,
}

-- `static_cast<uint32_t>` of a char.
unfoldable char_value : ℕ → ℕ
char_value c = if ltb c 128 then c else 2 ^ 32 - 256 + c

unfoldable fnv1a_32 : Bytes → (hash : ℕ) → ℕ
unfolding char_value
fnv1a_32 [] hash = hash
fnv1a_32 (c ∷ cs) hash = fnv1a_32 cs (bit_xor hash (char_value c) * 0x01000193 % 2 ^ 32)

-- `hash = (hash >> 27) + (hash << 5) + *data++`
unfoldable proton_step : (hash c : ℕ) → ℕ
proton_step hash c = (hash / 2 ^ 27 + hash * 2 ^ 5 % 2 ^ 32 + c) % 2 ^ 32

-- The loop on memory that holds these bytes; `none` is a read behind them.
unfoldable proton_loop : (length hash : ℕ) → Bytes → Option ℕ
unfolding proton_step
proton_loop zero hash memory = some hash
proton_loop (suc n) hash [] = none
proton_loop (suc n) hash (c ∷ cs) = proton_loop n (proton_step hash c) cs

-- `std::strlen`; `none` where no byte is 0.
unfoldable strlen : Bytes → Option ℕ
strlen [] = none
strlen (c ∷ cs) =
    let rest = strlen cs in
    if c == 0 then some 0 else elim rest [ none ↦ none | some n ↦ some (suc n) ]

abbrev proton_start : ℕ
proton_start = 0x5555_5555

-- `none` for `data` is the null pointer.
unfoldable proton : (memory : Option Bytes) (length : ℕ) → Option ℕ
unfolding proton_loop strlen
proton none length = some proton_start
proton (some memory) length =
    if length == 0
    then elim (strlen memory) [ none ↦ none | some n ↦ proton_loop n proton_start memory ]
    else proton_loop length proton_start memory

-- With the contents of the file, if it opens, and what `data()` of an empty vector points to.
unfoldable proton_file : (empty : Option Bytes) → (file : Option Bytes) → Option ℕ
unfolding proton
proton_file empty none = some 0
proton_file empty (some []) = proton empty 0
proton_file empty (some (c ∷ cs)) = proton (some (c ∷ cs)) (length (c ∷ cs))

-- The hash of the bytes, one after the other.
unfoldable proton_bytes : (hash : ℕ) → Bytes → ℕ
unfolding proton_step
proton_bytes hash [] = hash
proton_bytes hash (c ∷ cs) = proton_bytes (proton_step hash c) cs

proton_loop_lem :
    (bytes : Bytes) (hash : ℕ)
    → proton_loop (length bytes) hash bytes ≡ some (proton_bytes hash bytes)
unfolding proton_loop proton_bytes
proton_loop_lem [] hash = refl
proton_loop_lem (c ∷ cs) hash = proton_loop_lem cs (proton_step hash c)

-- A hash is a std::uint32_t again.
proton_bytes_less : (bytes : Bytes) (hash : ℕ) → hash < 2 ^ 32 → proton_bytes hash bytes < 2 ^ 32
unfolding proton_bytes proton_step
proton_bytes_less [] hash h = h
proton_bytes_less (c ∷ cs) hash h = proton_bytes_less cs (proton_step hash c) (omega arith)

-- The hash of a file that is not empty is that of all its bytes, read without going behind them.
proton_file_lem :
    (empty : Option Bytes) (c : ℕ) (cs : Bytes)
    → proton_file empty (some (c ∷ cs)) ≡ some (proton_bytes proton_start (c ∷ cs))
unfolding proton_file proton proton_loop proton_bytes
proton_file_lem empty c cs =
    let nonzero : (suc (length cs) == 0) ≡ false = ground arith in
    rw nonzero (proton_loop_lem cs (proton_step proton_start c))
