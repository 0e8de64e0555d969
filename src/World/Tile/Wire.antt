-- ===== src/World/Tile/Wire.antt =====
-- The bytes of a tile in the map data, and reading them back.
use gtproxy.Utils.ByteStream.Fields.{Half, u16_then}
use gtproxy.Prelude.{
  ℕ, ◌≡◌, refl, sym, Bool, true, false, ◌⊎◌, inl, inr, some, [], ◌++◌, Bytes, if◌then◌else◌, length,
  subst,
}
use gtproxy.Utils.ByteStream.{ByteStream, done, Reader, return, to_le, read_into}
use gtproxy.Utils.ByteStream.Reads.{
  Reads, At, advance, Reads-bind, Reads-map, Reads-uint, Reads-return,
}
use gtproxy.World.TileExtra.{TileExtra}
use gtproxy.World.TileExtra.Data.{Extra}
use gtproxy.World.TileExtra.Kinds.{Junk}
use gtproxy.World.TileExtra.Wire.{type_code, wire, Fits}
use gtproxy.World.TileExtra.Reading.{serialize-wire}
use gtproxy.World.Tile.{
  Tile, ItemTypes, has_flag, flag_locked, flag_extra, carries_data, serialize, read_lock_parent,
  has_extra, idiot_growtopia_dev, read_extra,
}

-- What the map data says of a tile: whether data follows it, the data, and the pad of a lock.
pub record Record : Type 0 where
  pub tile : Tile
  pub present : Bool
  pub pad : Bytes

abbrev lock_bytes : Tile → Bytes
lock_bytes t = if has_flag t.flag flag_locked then to_le 2 t.lock_parent_tile else []

abbrev extra_bytes : ℕ → Record → Bytes
extra_bytes version r =
    if r.present
    then to_le 1 (type_code r.tile.extra.contents)
      ++ wire r.tile.foreground version r.pad r.tile.extra.contents
    else []

abbrev pub tile_bytes : ℕ → Record → Bytes
tile_bytes version r =
    to_le 2 r.tile.foreground
    ++ (to_le 2 r.tile.background
        ++ (to_le 2 r.tile.parent_tile
            ++ (to_le 2 r.tile.flag ++ (lock_bytes r.tile ++ extra_bytes version r))))

-- Data follows a tile if its flag says so, or else if its item is of a type that always has data.
abbrev Carries : ItemTypes → Tile → Bool → Type 0
Carries item_types t present =
    ((has_flag t.flag flag_extra ≡ true) × (present ≡ true))
    ⊎ ((has_flag t.flag flag_extra ≡ false)
        × ((item_type : ℕ) × (item_types t.foreground ≡ some item_type)
            × (present ≡ carries_data item_type)))

-- A record that the map data can hold, for an object that held `old`.
pub record TileFits (item_types : ItemTypes) (junk : Junk) (version : ℕ) (old : Tile) (r : Record)
    : Type 0 where
  pub fg_half : Half r.tile.foreground
  pub bg_half : Half r.tile.background
  pub parent_half : Half r.tile.parent_tile
  pub flag_half : Half r.tile.flag
  pub lock_half : Half r.tile.lock_parent_tile
  pub not_locked :
      has_flag r.tile.flag flag_locked ≡ false → r.tile.lock_parent_tile ≡ old.lock_parent_tile
  pub carries : Carries item_types r.tile r.present
  pub with_data :
      r.present ≡ true
      → (r.tile.extra.type ≡ type_code r.tile.extra.contents)
        × Fits junk r.tile.foreground version r.pad r.tile.extra.contents
  pub without_data : r.present ≡ false → r.tile.extra ≡ old.extra

Reads-lock_parent :
    (t : Tile) (old : ℕ)
    → Half t.lock_parent_tile
    → (has_flag t.flag flag_locked ≡ false → t.lock_parent_tile ≡ old)
    → Reads (read_lock_parent t.flag old) (lock_bytes t) t.lock_parent_tile
unfolding read_lock_parent
Reads-lock_parent t old h keep = go (has_flag t.flag flag_locked) keep
  where
    go :
        (b : Bool)
        → (b ≡ false → t.lock_parent_tile ≡ old)
        → Reads
            (if b then read_into 2 old else return old)
            (if b then to_le 2 t.lock_parent_tile else [])
            t.lock_parent_tile
    go true k = Reads-uint 2 t.lock_parent_tile old h
    go false k = subst (λ (y : ℕ). Reads (return old) [] y) (sym (k refl)) (Reads-return old)

dev_some :
    (item_types : ItemTypes) (fg item_type : ℕ)
    → item_types fg ≡ some item_type
    → idiot_growtopia_dev item_types fg ≡ return (carries_data item_type)
unfolding idiot_growtopia_dev
dev_some item_types fg item_type k = rw (k, idiot_growtopia_dev)

Reads-has_extra :
    (item_types : ItemTypes) (t : Tile) (present : Bool)
    → Carries item_types t present
    → Reads (has_extra item_types t.flag t.foreground) [] present
unfolding has_extra
Reads-has_extra item_types t present (inl (e, p)) = rw (e, p) (Reads-return true)
Reads-has_extra item_types t present (inr (e, (item_type, k, p))) =
    rw (e, p)
      (subst (λ (m : Reader Bool). Reads m [] (carries_data item_type))
        (sym (dev_some item_types t.foreground item_type k))
        (Reads-return (carries_data item_type)))

module _ (item_types : ItemTypes) (junk : Junk) (version : ℕ) (old : Tile) (r : Record) where
  Reads-extra :
      TileFits item_types junk version old r
      → Reads
          (read_extra junk version r.tile.foreground r.tile.background old.extra r.present)
          (extra_bytes version r)
          r.tile.extra
  unfolding read_extra
  Reads-extra h = go r.present h.with_data h.without_data
    where
      x : Extra
      x = r.tile.extra.contents

      go :
          (b : Bool)
          → (b ≡ true
              → (r.tile.extra.type ≡ type_code x) × Fits junk r.tile.foreground version r.pad x)
          → (b ≡ false → r.tile.extra ≡ old.extra)
          → Reads
              (read_extra junk version r.tile.foreground r.tile.background old.extra b)
              (if b then to_le 1 (type_code x) ++ wire r.tile.foreground version r.pad x else [])
              r.tile.extra
      go true w o =
          subst
            (λ (k : ℕ).
              Reads (read_extra junk version r.tile.foreground r.tile.background old.extra true)
                (to_le 1 (type_code x) ++ wire r.tile.foreground version r.pad x)
                (record { type = k; contents = x }))
            (sym (w refl).0)
            (serialize-wire junk version r.tile.foreground r.pad old.extra.contents
              r.tile.background old.extra.type x (w refl).1)
      go false w o =
          subst
            (λ (e : TileExtra).
              Reads (read_extra junk version r.tile.foreground r.tile.background old.extra false) []
                e)
            (sym (o refl)) (Reads-return old.extra)

  -- A tile that fits is read back from its bytes, if these are what stands at the read position,
  -- and exactly these are taken: the words, the lock's tile if the flag says so, and the data if
  -- the flag or the type of a known item says so. What the bytes leave out stays as it was in the
  -- object.
  pub serialize-tile_bytes :
      TileFits item_types junk version old r
      → (s : ByteStream) (rest : Bytes) → At s (tile_bytes version r ++ rest)
      → serialize item_types junk version old s
        ≡ done r.tile (advance (length (tile_bytes version r)) s)
  unfolding serialize
  serialize-tile_bytes h = u16_then r.tile.foreground old.foreground _ _ _ h.fg_half (
      u16_then r.tile.background old.background _ _ _ h.bg_half (
        u16_then r.tile.parent_tile old.parent_tile _ _ _ h.parent_half (
          u16_then r.tile.flag 0 _ _ _ h.flag_half (
            Reads-bind (read_lock_parent r.tile.flag old.lock_parent_tile) _ (lock_bytes r.tile)
              (extra_bytes version r) r.tile.lock_parent_tile r.tile
              (Reads-lock_parent r.tile old.lock_parent_tile h.lock_half h.not_locked)
              (Reads-bind (has_extra item_types r.tile.flag r.tile.foreground) _ []
                (extra_bytes version r) r.present r.tile
                (Reads-has_extra item_types r.tile r.present h.carries)
                (Reads-map _ _ (extra_bytes version r) r.tile.extra (Reads-extra h)))))))
