-- ===== src/Item.antt =====
-- item/item_database.cpp: ItemDatabase, and reading items.dat.
pub mod Info
pub mod Cipher
pub mod Reading
pub mod Wire
pub mod Items
pub mod Safety
pub mod Ended
pub mod Database
pub mod Malformed
pub mod Lookup
use gtproxy.Prelude.{
  ℕ, zero, suc, Bool, true, false, Option, none, some, List, [], ◌∷◌, ◌++◌, Bytes, length, leb, map,
  get_elem?, if◌then◌else◌,
}
use gtproxy.Utils.ByteStream.{Outcome, done, fault, Reader, ◌>>=◌, return, of_span, read_uint}
use gtproxy.Item.Info.{ItemInfo}
use gtproxy.Item.Reading.{parse_item}

pub record ItemDatabase : Type 0 where
  pub version : ℕ
  pub count : ℕ
  pub items : List ItemInfo

unfoldable pub clear : ItemDatabase → ItemDatabase
clear db = record { version = 0; count = 0; items = [] }

unfoldable pub is_empty : ItemDatabase → Bool
is_empty db = elim db.items [ [] ↦ true | x ∷ xs ↦ false ]

-- `none` is the null pointer.
unfoldable pub get_item : (id : ℕ) → ItemDatabase → Option ItemInfo
get_item id db = if leb (length db.items) id then none else get_elem? db.items id

-- `items_.push_back`
abbrev push_back : ItemInfo → ItemDatabase → ItemDatabase
push_back item db = record db { items = db.items ++ (item ∷ []) }

-- The loop, with the rounds that are left. An item whose id is not its index is only logged.
unfoldable pub parse_items : (left : ℕ) → ItemDatabase → Reader (Bool × ItemDatabase)
unfolding parse_item
parse_items zero db = return (true, db)
parse_items (suc n) db = do
  item ← parse_item db.version
  elim item [ none ↦ return (false, db) | some x ↦ parse_items n (push_back x db) ]

unfoldable pub parse_count : ItemDatabase → Reader (Bool × ItemDatabase)
unfolding parse_items
parse_count db = do
  (found, count) ← read_uint 4 db.count
  elim found [
    | false ↦ return (false, record db { count = count })
    | true ↦ parse_items count (record db { count = count })
  ]

unfoldable pub parse_header : ItemDatabase → Reader (Bool × ItemDatabase)
unfolding parse_count
parse_header db = do
  (found, version) ← read_uint 2 db.version
  elim found [
    | false ↦ return (false, record db { version = version })
    | true ↦ parse_count (record db { version = version })
  ]

unfoldable pub parse : Bytes → ItemDatabase → Outcome (Bool × ItemDatabase)
unfolding clear parse_header of_span
parse bytes db = parse_header (clear db) (of_span bytes)

-- What the file system has at a path: nothing that opens, or a file, whose bytes may not be read.
abbrev pub FileSystem : Type 0
FileSystem = Bytes → Option (Option Bytes)

-- A file that is not read leaves the database as it was.
unfoldable load_from_file :
    FileSystem → (file_path : Bytes) → ItemDatabase → Outcome (Bool × ItemDatabase)
unfolding parse of_span
load_from_file files file_path db = elim (files file_path) [
  | none ↦ done (false, db) (of_span [])
  | some none ↦ done (false, db) (of_span [])
  | some (some bytes) ↦ parse bytes db
]

-- `get_item(id)->item_type`, as the parser of the tiles asks for it.
unfoldable pub item_types_of : ItemDatabase → ℕ → Option ℕ
item_types_of db id = elim (get_item id db) [ none ↦ none | some item ↦ some item.kind.item_type ]
