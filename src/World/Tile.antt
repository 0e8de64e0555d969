-- ===== src/World/Tile.antt =====
-- world/tile.hpp: one tile of the world, and its place in the map data.
pub mod Wire
use Prim.Native.Nat.{bit_and}
use gtproxy.Prelude.{ℕ, Bool, true, false, ◌||◌, Option, none, some, ◌==◌, if◌then◌else◌}
use gtproxy.Utils.ByteStream.{Reader, fault, ◌>>=◌, ◌>>◌, return, read_into}
use gtproxy.World.TileExtra
use gtproxy.World.TileExtra.{TileExtra, no_extra}
use gtproxy.World.TileExtra.Kinds.{Junk}

-- `ItemDatabase::instance().get_item(id)->item_type`; `none` where `get_item` gives a null pointer.
abbrev pub ItemTypes : Type 0
ItemTypes = ℕ → Option ℕ

-- `has_flag`, and the two flags that the parser looks at.
unfoldable pub has_flag : ℕ → ℕ → Bool
has_flag flags flag = bit_and flags flag == flag

abbrev pub flag_extra : ℕ
flag_extra = 1

abbrev pub flag_locked : ℕ
flag_locked = 2

pub record Tile : Type 0 where
  pub foreground : ℕ
  pub background : ℕ
  pub parent_tile : ℕ
  pub flag : ℕ
  pub lock_parent_tile : ℕ
  pub extra : TileExtra

abbrev pub new_tile : Tile
new_tile = record {
  foreground = 0;
  background = 0;
  parent_tile = 0;
  flag = 0;
  lock_parent_tile = 0;
  extra = no_extra;
}

-- The tests of the item's type: Lock, Door, Vending, DisplayBlock.
abbrev pub carries_data : ℕ → Bool
carries_data item_type = item_type == 3 || item_type == 13 || item_type == 62 || item_type == 61

-- `idiot_growtopia_dev`; the null pointer is dereferenced.
unfoldable pub idiot_growtopia_dev : ItemTypes → ℕ → Reader Bool
idiot_growtopia_dev item_types fg = elim (item_types fg) [
  | none ↦ λ s. fault
  | some item_type ↦ return (carries_data item_type)
]

unfoldable pub read_lock_parent : ℕ → ℕ → Reader ℕ
unfolding has_flag
read_lock_parent flag old = if has_flag flag flag_locked then read_into 2 old else return old

unfoldable pub has_extra : ItemTypes → ℕ → ℕ → Reader Bool
unfolding has_flag idiot_growtopia_dev
has_extra item_types flag fg =
    if has_flag flag flag_extra then return true else idiot_growtopia_dev item_types fg

unfoldable pub read_extra : Junk → ℕ → ℕ → ℕ → TileExtra → Bool → Reader TileExtra
read_extra junk version fg bg old true = TileExtra.serialize junk version fg bg old
read_extra junk version fg bg old false = return old

-- `Tile::serialize` on the object `old`: what is not read keeps its value.
unfoldable pub serialize : ItemTypes → Junk → ℕ → Tile → Reader Tile
unfolding read_lock_parent has_extra read_extra
serialize item_types junk version old = do
  fg ← read_into 2 old.foreground
  bg ← read_into 2 old.background
  parent ← read_into 2 old.parent_tile
  flag ← read_into 2 0
  lock_parent ← read_lock_parent flag old.lock_parent_tile
  present ← has_extra item_types flag fg
  extra ← read_extra junk version fg bg old.extra present
  return (record {
    foreground = fg;
    background = bg;
    parent_tile = parent;
    flag = flag;
    lock_parent_tile = lock_parent;
    extra = extra;
  })
