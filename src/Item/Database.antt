-- ===== src/Item/Database.antt =====
-- item_database.cpp: what reading items.dat gives, and the types that the tiles ask for.
use gtproxy.Prelude.{
  ℕ, ◌<◌, ◌≡◌, sym, subst, true, List, [], ◌∷◌, ◌++◌, append_assoc, append-nil, some, Bytes, length,
}
use gtproxy.Utils.ByteStream.{done, to_le, of_span, read_uint, size_mod}
use gtproxy.Utils.ByteStream.Reads.{
  Reads, Reads-bind, Reads-return, At-of_span, advance, read_uint-to_le,
}
use gtproxy.Utils.ByteStream.Fields.{Half, Word}
use gtproxy.Item.Info.{ItemInfo}
use gtproxy.Item.Wire.{item_bytes, ItemFits}
use gtproxy.Item.Items.{Reads-parse_item}
use gtproxy.Item.{ItemDatabase, clear, push_back, parse_items, parse_count, parse_header, parse}
use gtproxy.Item.Reading.{parse_item}

abbrev items_bytes : (version : ℕ) → List ItemInfo → Bytes
items_bytes version [] = []
items_bytes version (x ∷ xs) = item_bytes version x ++ items_bytes version xs

abbrev pub AllFit : (version : ℕ) → List ItemInfo → Type 0
AllFit version [] = Unit
AllFit version (x ∷ xs) = ItemFits version x × AllFit version xs

-- The contents of items.dat.
abbrev pub database_bytes : ItemDatabase → Bytes
database_bytes db = to_le 2 db.version ++ (to_le 4 db.count ++ items_bytes db.version db.items)

pub record DatabaseFits (db : ItemDatabase) : Type 0 where
  pub version_half : Half db.version
  pub count_word : Word db.count
  pub counted : length db.items ≡ db.count
  pub items_fit : AllFit db.version db.items

Reads-parse_items :
    (xs : List ItemInfo) (db : ItemDatabase)
    → AllFit db.version xs
    → Reads
        (parse_items (length xs) db)
        (items_bytes db.version xs)
        (true, record db { items = db.items ++ xs })
unfolding parse_items
Reads-parse_items [] db h =
    subst (λ (l : List ItemInfo). Reads (parse_items 0 db) [] (true, record db { items = l }))
      (sym (append-nil db.items)) (Reads-return (true, db))
Reads-parse_items (x ∷ xs) db (h, hs) =
    Reads-bind (parse_item db.version) _ (item_bytes db.version x) (items_bytes db.version xs)
      (some x) _ (Reads-parse_item db.version x h)
      (subst
        (λ (l : List ItemInfo).
          Reads (parse_items (length xs) (push_back x db)) (items_bytes db.version xs)
            (true, record db { items = l }))
        (append_assoc db.items (x ∷ []) xs) (Reads-parse_items xs (push_back x db) hs))

Reads-parse_header :
    (db old : ItemDatabase)
    → DatabaseFits db
    → Reads (parse_header (clear old)) (database_bytes db) (true, db)
unfolding parse_header parse_count clear
Reads-parse_header db old h =
    Reads-bind (read_uint 2 0) _ (to_le 2 db.version) _ (true, db.version) (true, db)
      (read_uint-to_le 2 db.version 0 h.version_half)
      (Reads-bind (read_uint 4 0) _ (to_le 4 db.count) (items_bytes db.version db.items)
        (true, db.count) (true, db) (read_uint-to_le 4 db.count 0 h.count_word)
        (subst
          (λ (n : ℕ).
            Reads (parse_items n (record { version = db.version; count = db.count; items = [] }))
              (items_bytes db.version db.items) (true, db))
          h.counted
          (Reads-parse_items db.items
            (record { version = db.version; count = db.count; items = [] }) h.items_fit)))

-- A database that fits is read back from its bytes, with all fields of every item, the names
-- decrypted, whatever the object held before and whatever bytes follow; the position is then
-- behind the last item.
pub parse-database_bytes :
    (db old : ItemDatabase) (rest : Bytes)
    → DatabaseFits db
    → length (database_bytes db ++ rest) < size_mod
    → parse (database_bytes db ++ rest) old
      ≡ done (true, db) (advance (length (database_bytes db)) (of_span (database_bytes db ++ rest)))
unfolding parse
parse-database_bytes db old rest fits h =
    Reads-parse_header db old fits (of_span (database_bytes db ++ rest)) rest
      (At-of_span (database_bytes db ++ rest) h)
