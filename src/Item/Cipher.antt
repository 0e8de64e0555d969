-- ===== src/Item/Cipher.antt =====
-- item/item_database.cpp: decrypt_item_name.
use Prim.Native.Nat.{bit_xor}
use native.Mathlib.Decide.{dec_le}
use gtproxy.Prelude.{
  ℕ, zero, suc, ◌+◌, ◌%◌, ◌<◌, ◌≤◌, ◌≡◌, refl, ap, arith, subst, Bool, true, false, if◌then◌else◌,
  [], ◌∷◌, none, some, Bytes, length, get_elem?, ◌==◌, ==_iff, bytes,
}

-- DECRYPT_KEY
abbrev decrypt_key : Bytes
decrypt_key = bytes "PBG892FXX982ABC*"

-- `DECRYPT_KEY[key_index]`; the index is below the length of the key.
abbrev key_byte : ℕ → ℕ
key_byte n = elim (get_elem? decrypt_key (n % 16)) [ none ↦ 0 | some k ↦ k ]

-- The loop, from the index `i` on. The sum on std::size_t may wrap: 16 divides its modulus.
unfoldable pub decrypt_from : ℕ → Bytes → (item_id : ℕ) → Bytes
decrypt_from i [] item_id = []
decrypt_from i (c ∷ cs) item_id =
    bit_xor c (key_byte (i + item_id)) ∷ decrypt_from (suc i) cs item_id

unfoldable pub decrypt_item_name : Bytes → (item_id : ℕ) → Bytes
unfolding decrypt_from
decrypt_item_name encrypted item_id = decrypt_from 0 encrypted item_id

abbrev pub AllByte : Bytes → Type 0
AllByte [] = Unit
AllByte (c ∷ cs) = (c < 256) × AllByte cs

-- The test holds of so many numbers, from the first one on.
passes : (test : ℕ → Bool) (count first : ℕ) → Bool
passes test zero first = true
passes test (suc left) first =
    let later = passes test left (suc first) in if test first then later else false

passes_at :
    (test : ℕ → Bool) (count first k : ℕ)
    → passes test count first ≡ true
    → first ≤ k
    → k < first + count
    → test k ≡ true
unfolding passes
passes_at test zero first k all low high = absurd (omega arith)
passes_at test (suc left) first k all low high = elim (dec_le (suc first) k) [
  | yes later ↦ ground (arith, passes_at test left (suc first) k (ground arith) later (omega arith))
  | no here ↦
      let first_one : test first ≡ true = ground arith in
      subst (λ (n : ℕ). test n ≡ true) (omega arith) first_one
]

-- A key's byte twice on a byte.
restores : (key c : ℕ) → Bool
restores key c = bit_xor (bit_xor c key) key == c

restores_all : ℕ → Bool
unfolding passes restores
restores_all n = passes (restores (key_byte n)) 256 0

every_key : passes restores_all 16 0 ≡ true
unfolding passes restores_all restores
every_key = refl

bit_xor_twice : (n c : ℕ) → c < 256 → bit_xor (bit_xor c (key_byte n)) (key_byte n) ≡ c
unfolding restores restores_all
bit_xor_twice n c h =
    let key : restores_all (n % 16) ≡ true =
      passes_at restores_all 16 0 (n % 16) every_key (omega arith) (omega arith) in
    let same : key_byte (n % 16) ≡ key_byte n =
      ap (λ (k : ℕ). elim (get_elem? decrypt_key k) [ none ↦ 0 | some b ↦ b ]) (omega arith) in
    let byte : passes (restores (key_byte n)) 256 0 ≡ true =
      subst (λ (b : ℕ). passes (restores b) 256 0 ≡ true) same key in
    (==_iff _ c).0 (passes_at (restores (key_byte n)) 256 0 c byte (omega arith) (omega arith))

decrypt_from-twice :
    (i : ℕ) (name : Bytes) (item_id : ℕ)
    → AllByte name
    → decrypt_from i (decrypt_from i name item_id) item_id ≡ name
unfolding decrypt_from
decrypt_from-twice i [] item_id h = refl
decrypt_from-twice i (c ∷ cs) item_id (h, hs) =
    λ k. bit_xor_twice (i + item_id) c h k ∷ decrypt_from-twice (suc i) cs item_id hs k

-- Decrypting twice gives the name back, whatever the item: the same function encrypts.
pub decrypt_item_name-twice :
    (name : Bytes) (item_id : ℕ)
    → AllByte name
    → decrypt_item_name (decrypt_item_name name item_id) item_id ≡ name
unfolding decrypt_item_name
decrypt_item_name-twice name item_id h = decrypt_from-twice 0 name item_id h

length-decrypt_from :
    (i : ℕ) (name : Bytes) (item_id : ℕ) → length (decrypt_from i name item_id) ≡ length name
unfolding decrypt_from
length-decrypt_from i [] item_id = refl
length-decrypt_from i (c ∷ cs) item_id = ap suc (length-decrypt_from (suc i) cs item_id)

pub length-decrypt_item_name :
    (name : Bytes) (item_id : ℕ) → length (decrypt_item_name name item_id) ≡ length name
unfolding decrypt_item_name
length-decrypt_item_name name item_id = length-decrypt_from 0 name item_id
