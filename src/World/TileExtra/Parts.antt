-- ===== src/World/TileExtra/Parts.antt =====
-- Readers of single fields, and the kinds of tile data that hold lists or depend on the tile.
use gtproxy.Utils.ByteStream.Fields.{Byte, Word, u8_then, u32_then, u32_last}
use gtproxy.Prelude.{
  ℕ, ◌+◌, ◌≡◌, refl, sym, ◌∙◌, arith, Bool, true, false, List, [], ◌∷◌, ◌++◌, Bytes, ◌==◌,
  if◌then◌else◌, length, inl, inr, Bool-cases, subst, take, drop, length-take, length-drop,
  take-append-drop,
}
use gtproxy.Utils.ByteStream.{◌>>=◌, ◌>>◌, return, to_le, skip_bytes}
use gtproxy.Utils.ByteStream.Reads.{Reads, Reads-bind, Reads-map, Reads-return, Reads-skip}
use gtproxy.World.TileExtra.Data.{lock, provider, solar, vip_entrance}
use gtproxy.World.TileExtra.Kinds.{
  Junk, has_second, u32, words, skip_lock, serialize_lock, serialize_provider, serialize_solar,
  serialize_vip_entrance,
}
use gtproxy.World.TileExtra.Wire.{word_list, counted, wire, AllWord, pad_size, Fits}

Reads-words : (xs : List ℕ) → AllWord xs → Reads (words (length xs)) (word_list xs) xs
unfolding words
Reads-words [] h = Reads-return []
Reads-words (x ∷ xs) h =
    u32_then x 0 _ (word_list xs) _ h.0
      (Reads-map (words (length xs)) (λ ys. x ∷ ys) (word_list xs) xs (Reads-words xs h.1))

pub skip_exactly : (n : ℕ) (pad : Bytes) → length pad ≡ n → Reads (skip_bytes n) pad tt
skip_exactly n pad h = subst (λ (k : ℕ). Reads (skip_bytes k) pad tt) h (Reads-skip pad)

skip_both :
    (m n : ℕ) (pad : Bytes) → length pad ≡ m + n → Reads (skip_bytes m >> skip_bytes n) pad tt
skip_both m n pad h =
    subst (λ (l : Bytes). Reads (skip_bytes m >> skip_bytes n) l tt) (take-append-drop m pad)
      (Reads-bind (skip_bytes m) (λ _. skip_bytes n) (take m pad) (drop m pad) tt tt
        (skip_exactly m (take m pad) (omega (arith, length-take m pad)))
        (skip_exactly n (drop m pad) (omega (arith, length-drop m pad))))

Reads-skip_lock :
    (foreground : ℕ) (pad : Bytes)
    → length pad ≡ pad_size foreground
    → Reads (skip_lock foreground) pad tt
unfolding skip_lock
Reads-skip_lock foreground pad h = elim (Bool-cases (foreground == 5814)) [
  | inl e ↦ rw e (skip_both 8 16 pad (h ∙ rw e))
  | inr e ↦ rw e (skip_exactly 8 pad (h ∙ rw e))
]

pub Reads-lock :
    (foreground version : ℕ) (pad : Bytes) (unk owner_id : ℕ) (accesses : List ℕ)
    → Byte unk
      × Word owner_id
      × Word (length accesses)
      × AllWord accesses
      × (length pad ≡ pad_size foreground)
    → Reads
        (serialize_lock foreground)
        (wire foreground version pad (lock unk owner_id accesses))
        (lock unk owner_id accesses)
unfolding serialize_lock
Reads-lock foreground version pad unk owner_id accesses (a, b, c, d, e) = u8_then unk 0 _ _ _ a (
    u32_then owner_id 0 _ _ _ b (
      u32_then (length accesses) 0 _ _ _ c (
        Reads-bind (words (length accesses)) _ (word_list accesses) pad accesses _
          (Reads-words accesses d)
          (Reads-map (skip_lock foreground) (λ _. lock unk owner_id accesses) pad tt
            (Reads-skip_lock foreground pad e)))))

pub Reads-provider :
    (junk : Junk) (foreground version : ℕ) (pad : Bytes) (unk unk2 : ℕ)
    → Fits junk foreground version pad (provider unk unk2)
    → Reads
        (serialize_provider junk foreground version)
        (wire foreground version pad (provider unk unk2))
        (provider unk unk2)
unfolding serialize_provider
Reads-provider junk foreground version pad unk unk2 (a, b, c) =
    u32_then unk (junk 0) _ _ _ a (second (has_second foreground version) c)
  where
    second :
        (more : Bool)
        → (more ≡ false → unk2 ≡ junk 1)
        → Reads
            (if more
              then (u32 (junk 1) >>= λ y. return (provider unk y))
              else return (provider unk (junk 1)))
            (if more then to_le 4 unk2 else [])
            (provider unk unk2)
    second true k = u32_last unk2 (junk 1) (λ y. provider unk y) b
    second false k =
        subst (λ (y : ℕ). Reads (return (provider unk (junk 1))) [] (provider unk y)) (sym (k refl))
          (Reads-return (provider unk (junk 1)))

pub Reads-solar :
    (junk : Junk) (unk : ℕ) (unk3 : List ℕ)
    → Byte unk
    → Word (length unk3)
    → AllWord unk3
    → Reads
        (serialize_solar junk)
        (to_le 1 unk ++ (to_le 4 (length unk3) ++ word_list unk3))
        (solar unk (length unk3) unk3)
unfolding serialize_solar
Reads-solar junk unk unk3 a b c = u8_then unk (junk 0) _ _ _ a (
    u32_then (length unk3) (junk 1) _ _ _ b (
      Reads-map (words (length unk3)) (λ ys. solar unk (length unk3) ys) (word_list unk3) unk3
        (Reads-words unk3 c)))

pub Reads-vip_entrance :
    (junk : Junk) (unk owner_id : ℕ) (accesses : List ℕ)
    → Byte unk
    → Word owner_id
    → Word (length accesses)
    → AllWord accesses
    → Reads
        (serialize_vip_entrance junk)
        (to_le 1 unk ++ (to_le 4 owner_id ++ counted accesses))
        (vip_entrance unk owner_id accesses)
unfolding serialize_vip_entrance
Reads-vip_entrance junk unk owner_id accesses a b c d = u8_then unk (junk 0) _ _ _ a (
    u32_then owner_id (junk 1) _ _ _ b (
      u32_then (length accesses) 0 _ _ _ c (
        Reads-map (words (length accesses)) (λ ys. vip_entrance unk owner_id ys)
          (word_list accesses) accesses (Reads-words accesses d))))
