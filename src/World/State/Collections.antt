-- ===== src/World/State/Collections.antt =====
-- The bytes of the tiles and of the objects of a world, and reading them back.
use gtproxy.Utils.ByteStream.Fields.{Byte, Word, Half, u8_then, u16_then, u32_then, u32_last}
use gtproxy.Prelude.{
  ℕ, ◌≡◌, sym, List, [], ◌∷◌, ◌++◌, Bytes, length, replicate, take-replicate, subst, map,
}
use gtproxy.Utils.ByteStream.{to_le, skip_bytes}
use gtproxy.Utils.ByteStream.Reads.{Reads, Reads-bind, Reads-map, Reads-return}
use gtproxy.World.Tile.{Tile, ItemTypes, new_tile}
use gtproxy.World.Tile
use gtproxy.World.Tile.Wire.{Record, TileFits, tile_bytes, serialize-tile_bytes}
use gtproxy.World.TileMap.{TileMap, serialize_tiles, resize_tiles, new_tile_map}
use gtproxy.World.TileMap
use gtproxy.World.ObjectMap.{
  Object, ObjectMap, new_object, new_object_map, serialize_object, serialize_objects,
  resize_objects,
}
use gtproxy.World.ObjectMap
use gtproxy.World.TileExtra.Kinds.{Junk}
use gtproxy.World.TileExtra.Parts.{skip_exactly}

abbrev tiles_bytes : ℕ → List Record → Bytes
tiles_bytes version [] = []
tiles_bytes version (r ∷ rs) = tile_bytes version r ++ tiles_bytes version rs

abbrev pub tiles_of : List Record → List Tile
tiles_of = map (λ (r : Record). r.tile)

abbrev pub AllFit : ItemTypes → Junk → ℕ → List Record → Type 0
AllFit item_types junk version [] = Unit
AllFit item_types junk version (r ∷ rs) =
    TileFits item_types junk version new_tile r × AllFit item_types junk version rs

Reads-tiles :
    (item_types : ItemTypes) (junk : Junk) (version : ℕ) (rs : List Record)
    → AllFit item_types junk version rs
    → Reads
        (serialize_tiles item_types junk version (replicate (length rs) new_tile))
        (tiles_bytes version rs)
        (tiles_of rs)
unfolding serialize_tiles
Reads-tiles item_types junk version [] h = Reads-return []
Reads-tiles item_types junk version (r ∷ rs) h =
    Reads-bind (Tile.serialize item_types junk version new_tile) _ (tile_bytes version r)
      (tiles_bytes version rs) r.tile _
      (serialize-tile_bytes item_types junk version new_tile r h.0)
      (Reads-map (serialize_tiles item_types junk version (replicate (length rs) new_tile))
        (λ ts. r.tile ∷ ts) (tiles_bytes version rs) (tiles_of rs)
        (Reads-tiles item_types junk version rs h.1))

resize_tiles-nil : (n : ℕ) → resize_tiles n [] ≡ replicate n new_tile
unfolding resize_tiles
resize_tiles-nil n = take-replicate n new_tile

-- Five bytes behind the count of the tiles are not looked at.
abbrev pub tile_map_bytes : ℕ → ℕ → ℕ → Bytes → List Record → Bytes
tile_map_bytes version x y gap rs =
    to_le 4 x ++ (to_le 4 y ++ (to_le 4 (length rs) ++ (gap ++ tiles_bytes version rs)))

module _ (item_types : ItemTypes) (junk : Junk) (version : ℕ) where
  pub Reads-tile_map :
      (x y : ℕ) (gap : Bytes) (rs : List Record)
      → Word x
      → Word y
      → Word (length rs)
      → length gap ≡ 5
      → AllFit item_types junk version rs
      → Reads
          (TileMap.serialize item_types junk version new_tile_map)
          (tile_map_bytes version x y gap rs)
          (record { size_x = x; size_y = y; tiles = tiles_of rs })
  unfolding TileMap.serialize
  Reads-tile_map x y gap rs hx hy hn hg h = u32_then x 0 _ _ _ hx (
      u32_then y 0 _ _ _ hy (
        u32_then (length rs) 0 _ _ _ hn (
          Reads-bind (skip_bytes 5)
            (λ _. TileMap.serialize_counted item_types junk version new_tile_map x y (length rs))
            gap (tiles_bytes version rs) tt _ (skip_exactly 5 gap hg)
            (Reads-map (serialize_tiles item_types junk version (resize_tiles (length rs) []))
              (λ ts. record { size_x = x; size_y = y; tiles = ts }) (tiles_bytes version rs)
              (tiles_of rs) tiles))))
    where
      tiles :
          Reads
            (serialize_tiles item_types junk version (resize_tiles (length rs) []))
            (tiles_bytes version rs)
            (tiles_of rs)
      tiles =
          subst
            (λ (l : List Tile).
              Reads (serialize_tiles item_types junk version l) (tiles_bytes version rs)
                (tiles_of rs))
            (sym (resize_tiles-nil (length rs))) (Reads-tiles item_types junk version rs h)

abbrev object_bytes : Object → Bytes
object_bytes o =
    to_le 2 o.item_id
    ++ (to_le 4 o.pos_x
        ++ (to_le 4 o.pos_y ++ (to_le 1 o.amount ++ (to_le 1 o.flags ++ to_le 4 o.object_id))))

pub record ObjectFits (o : Object) : Type 0 where
  pub item_half : Half o.item_id
  pub x_word : Word o.pos_x
  pub y_word : Word o.pos_y
  pub amount_byte : Byte o.amount
  pub flags_byte : Byte o.flags
  pub id_word : Word o.object_id

Reads-object : (old o : Object) → ObjectFits o → Reads (serialize_object old) (object_bytes o) o
unfolding serialize_object
Reads-object old o h = u16_then o.item_id old.item_id _ _ _ h.item_half (
    u32_then o.pos_x old.pos_x _ _ _ h.x_word (
      u32_then o.pos_y old.pos_y _ _ _ h.y_word (
        u8_then o.amount old.amount _ _ _ h.amount_byte (
          u8_then o.flags old.flags _ _ _ h.flags_byte
            (u32_last o.object_id old.object_id _ h.id_word)))))

abbrev objects_bytes : List Object → Bytes
objects_bytes [] = []
objects_bytes (o ∷ os) = object_bytes o ++ objects_bytes os

abbrev pub ObjectsFit : List Object → Type 0
ObjectsFit [] = Unit
ObjectsFit (o ∷ os) = ObjectFits o × ObjectsFit os

Reads-objects :
    (os : List Object)
    → ObjectsFit os
    → Reads (serialize_objects (replicate (length os) new_object)) (objects_bytes os) os
unfolding serialize_objects
Reads-objects [] h = Reads-return []
Reads-objects (o ∷ os) h =
    Reads-bind (serialize_object new_object) _ (object_bytes o) (objects_bytes os) o _
      (Reads-object new_object o h.0)
      (Reads-map (serialize_objects (replicate (length os) new_object)) (λ l. o ∷ l)
        (objects_bytes os) os (Reads-objects os h.1))

resize_objects-nil : (n : ℕ) → resize_objects n [] ≡ replicate n new_object
unfolding resize_objects
resize_objects-nil n = take-replicate n new_object

-- Twelve bytes in front of the count are not looked at.
abbrev pub object_map_bytes : Bytes → ObjectMap → Bytes
object_map_bytes gap m =
    gap ++ (to_le 4 (length m.objects) ++ (to_le 4 m.drop_id ++ objects_bytes m.objects))

pub Reads-object_map :
    (gap : Bytes) (m : ObjectMap)
    → length gap ≡ 12
    → Word (length m.objects)
    → Word m.drop_id
    → ObjectsFit m.objects
    → Reads (ObjectMap.serialize new_object_map) (object_map_bytes gap m) m
unfolding ObjectMap.serialize
Reads-object_map gap m hg hn hd h =
    Reads-bind (skip_bytes 12) (λ _. ObjectMap.serialize_counted new_object_map) gap _ tt _
      (skip_exactly 12 gap hg)
      (u32_then (length m.objects) 0 _ _ _ hn (
        u32_then m.drop_id 0 _ _ _ hd (
          Reads-map (serialize_objects (resize_objects (length m.objects) []))
            (λ l. record { drop_id = m.drop_id; objects = l }) (objects_bytes m.objects) m.objects
            (subst
              (λ (l : List Object). Reads (serialize_objects l) (objects_bytes m.objects) m.objects)
              (sym (resize_objects-nil (length m.objects))) (Reads-objects m.objects h)))))
