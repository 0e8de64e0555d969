-- ===== src/Item/Lookup.antt =====
-- item_database.cpp: get_item, and the tiles that ask it for the type of their foreground.
use gtproxy.Prelude.{
  ℕ, zero, suc, ◌≤◌, ◌<◌, ◌≡◌, refl, ap, ◌∙◌, subst, arith, Bool, false, List, [], ◌∷◌, ◌++◌,
  append_assoc, none, some, Bytes, length, get_elem?, Option, sym,
}
use gtproxy.Utils.ByteStream.{
  Outcome, done, fault, ByteStream, Reader, ◌>>=◌, size_mod, to_le, read_into,
}
use gtproxy.Utils.ByteStream.Reads.{At, At-advance, advance, Reads-uint, bind_done}
use gtproxy.Utils.ByteStream.Fields.{Half}
use mathlib.Core.Option
use gtproxy.Item.Info.{ItemInfo}
use gtproxy.Item.{ItemDatabase, get_item, parse, item_types_of}
use gtproxy.Item.Database.{DatabaseFits, database_bytes, parse-database_bytes}
use gtproxy.World.Tile
use gtproxy.World.Tile.{
  ItemTypes, Tile, has_flag, flag_extra, flag_locked, read_lock_parent, has_extra,
  idiot_growtopia_dev,
}
use gtproxy.World.Tile.Wire.{Record, TileFits, tile_bytes, serialize-tile_bytes}
use gtproxy.World.TileExtra.Kinds.{Junk}

get_elem?-length_append {ℓ} :
    {A : Type ℓ} (xs ys : List A) (x : A) → get_elem? (xs ++ x ∷ ys) (length xs) ≡ some x
get_elem?-length_append [] ys x = refl
get_elem?-length_append (y ∷ xs) ys x = get_elem?-length_append xs ys x

get_elem?-over {ℓ} : {A : Type ℓ} (xs : List A) (i : ℕ) → length xs ≤ i → get_elem? xs i ≡ none
get_elem?-over [] i h = refl
get_elem?-over (x ∷ xs) zero h = absurd (omega arith)
get_elem?-over (x ∷ xs) (suc i) h = get_elem?-over xs i (omega arith)

-- The test of the bound is that of the vector: `get_item` is the lookup by index.
get_item_lem : (id : ℕ) (db : ItemDatabase) → get_item id db ≡ get_elem? db.items id
unfolding get_item
get_item_lem id db = ground (arith, get_elem?-over db.items id)

-- The types of the items, by their places in the list.
abbrev pub type_at : List ItemInfo → ItemTypes
type_at items id = Option.map (λ (item : ItemInfo). item.kind.item_type) (get_elem? items id)

type_of_found : Option ItemInfo → Option ℕ
type_of_found o = elim o [ none ↦ none | some item ↦ some item.kind.item_type ]

type_of_found_lem :
    (o : Option ItemInfo)
    → type_of_found o ≡ Option.map (λ (item : ItemInfo). item.kind.item_type) o
unfolding type_of_found
type_of_found_lem none = refl
type_of_found_lem (some item) = refl

item_types_of_lem : (db : ItemDatabase) (id : ℕ) → item_types_of db id ≡ type_at db.items id
unfolding item_types_of type_of_found
item_types_of_lem db id =
    ap type_of_found (get_item_lem id db) ∙ type_of_found_lem (get_elem? db.items id)

-- What the parser of the tiles is given after items.dat is read.
abbrev pub with_database {ℓ} :
    {A : Type ℓ} → Outcome (Bool × ItemDatabase) → (ItemDatabase → Outcome A) → Outcome A
with_database (done (ok, db) t) next = next db
with_database fault next = fault

module _ (junk : Junk) (version : ℕ) (old : Tile) (r : Record) where
  -- After items.dat is read from the bytes of a database that fits, a tile that fits is read back
  -- from its bytes, where the type that decides whether data follows the tile is that of the item
  -- at the place that the foreground says, in the list that was written.
  pub serialize-parse :
      (db before : ItemDatabase)
      → DatabaseFits db
      → length (database_bytes db ++ []) < size_mod
      → TileFits (type_at db.items) junk version old r
      → (s : ByteStream) (rest : Bytes) → At s (tile_bytes version r ++ rest)
      → with_database
          (parse (database_bytes db ++ []) before)
          (λ after. Tile.serialize (item_types_of after) junk version old s)
        ≡ done r.tile (advance (length (tile_bytes version r)) s)
  serialize-parse db before fits size h s rest at =
      rw (parse-database_bytes db before [] fits size) (
        serialize-tile_bytes (item_types_of db) junk version old r
          (subst (λ (types : ItemTypes). TileFits types junk version old r)
            (λ k id. sym (item_types_of_lem db id) k) h)
          s rest at)

-- The words that every tile starts with.
abbrev pub tile_words : Tile → Bytes
tile_words t =
    to_le 2 t.foreground
    ++ (to_le 2 t.background ++ (to_le 2 t.parent_tile ++ (to_le 2 t.flag ++ [])))

-- `m` takes the bytes and then faults.
abbrev Faults {ℓ} : {A : Type ℓ} → Reader A → Bytes → Type ℓ
Faults m bs = (s : ByteStream) (rest : Bytes) → At s (bs ++ rest) → m s ≡ fault

word-Faults {ℓ} :
    {B : Type ℓ} (x old : ℕ) (f : ℕ → Reader B) (bs : Bytes)
    → Half x
    → Faults (f x) bs
    → Faults (read_into 2 old >>= f) (to_le 2 x ++ bs)
word-Faults x old f bs h k s rest at =
    let at2 : At s (to_le 2 x ++ (bs ++ rest)) =
      subst (At s) (append_assoc (to_le 2 x) bs rest) at in
    bind_done (read_into 2 old) f s (Reads-uint 2 x old h s (bs ++ rest) at2)
    ∙ k (advance (length (to_le 2 x)) s) rest (At-advance s (to_le 2 x) (bs ++ rest) at2)

unknown-none : (db : ItemDatabase) (id : ℕ) → length db.items ≤ id → item_types_of db id ≡ none
unfolding item_types_of
unknown-none db id h =
    ap (λ (o : Option ItemInfo). elim o [ none ↦ none | some item ↦ some item.kind.item_type ])
      (get_item_lem id db ∙ get_elem?-over db.items id h)

dev-none :
    (item_types : ItemTypes) (fg : ℕ)
    → item_types fg ≡ none
    → idiot_growtopia_dev item_types fg ≡ λ s. fault
unfolding idiot_growtopia_dev
dev-none item_types fg k = rw (k, idiot_growtopia_dev)

-- Neither the lock's tile nor the data is read: the type of the item is asked for.
unknown-Faults :
    {B : Type 0} (db : ItemDatabase) (t old : Tile) (f : ℕ → Bool → Reader B)
    → has_flag t.flag flag_extra ≡ false
    → has_flag t.flag flag_locked ≡ false
    → length db.items ≤ t.foreground
    → Faults
        (do
          lock_parent ← read_lock_parent t.flag old.lock_parent_tile
          present ← has_extra (item_types_of db) t.flag t.foreground
          f lock_parent present)
        []
unfolding read_lock_parent has_extra
unknown-Faults db t old f no_extra no_lock over s rest at =
    rw
      (
        no_extra,
        no_lock,
        dev-none (item_types_of db) t.foreground (unknown-none db t.foreground over),
      )
      refl

-- A tile whose foreground is behind the last item of the database, and whose flag has neither the
-- mark of more data nor that of a lock, makes the parser go through a null pointer.
pub serialize_unknown :
    (db : ItemDatabase) (junk : Junk) (version : ℕ) (old t : Tile)
    → Half t.foreground
    → Half t.background
    → Half t.parent_tile
    → Half t.flag
    → has_flag t.flag flag_extra ≡ false
    → has_flag t.flag flag_locked ≡ false
    → length db.items ≤ t.foreground
    → (s : ByteStream) (rest : Bytes) → At s (tile_words t ++ rest)
    → Tile.serialize (item_types_of db) junk version old s ≡ fault
unfolding Tile.serialize
serialize_unknown db junk version old t h1 h2 h3 h4 no_extra no_lock over =
    word-Faults t.foreground old.foreground _ _ h1 (
      word-Faults t.background old.background _ _ h2 (
        word-Faults t.parent_tile old.parent_tile _ _ h3
          (word-Faults t.flag 0 _ [] h4 (unknown-Faults db t old _ no_extra no_lock over))))
