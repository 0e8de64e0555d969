-- ===== src/World/ObjectMap.antt =====
-- world/object.hpp and object_map.hpp: the dropped items of a world.
use gtproxy.Prelude.{ℕ, ◌+◌, ◌%◌, ◌^◌, List, [], ◌∷◌, ◌++◌, take, replicate}
use gtproxy.Utils.ByteStream.{Reader, ◌>>=◌, ◌>>◌, return, read_into, skip_bytes}

-- The position is two int32_t, as bit patterns.
pub record Object : Type 0 where
  pub item_id : ℕ
  pub pos_x : ℕ
  pub pos_y : ℕ
  pub amount : ℕ
  pub flags : ℕ
  pub object_id : ℕ

abbrev pub new_object : Object
new_object = record { item_id = 0; pos_x = 0; pos_y = 0; amount = 0; flags = 0; object_id = 0 }

unfoldable pub serialize_object : Object → Reader Object
serialize_object old = do
  item_id ← read_into 2 old.item_id
  x ← read_into 4 old.pos_x
  y ← read_into 4 old.pos_y
  amount ← read_into 1 old.amount
  flags ← read_into 1 old.flags
  object_id ← read_into 4 old.object_id
  return (record {
    item_id = item_id;
    pos_x = x;
    pos_y = y;
    amount = amount;
    flags = flags;
    object_id = object_id;
  })

pub record ObjectMap : Type 0 where
  pub drop_id : ℕ
  pub objects : List Object

abbrev pub new_object_map : ObjectMap
new_object_map = record { drop_id = 0; objects = [] }

unfoldable pub resize_objects : ℕ → List Object → List Object
resize_objects count objects = take count (objects ++ replicate count new_object)

unfoldable pub serialize_objects : List Object → Reader (List Object)
unfolding serialize_object
serialize_objects [] = return []
serialize_objects (object ∷ objects) = do
  o ← serialize_object object
  os ← serialize_objects objects
  return (o ∷ os)

-- `serialize` behind the bytes that are passed over.
abbrev pub serialize_counted : ObjectMap → Reader ObjectMap
serialize_counted old = do
  count ← read_into 4 0
  drop_id ← read_into 4 old.drop_id
  objects ← serialize_objects (resize_objects count old.objects)
  return (record { drop_id = drop_id; objects = objects })

unfoldable pub serialize : ObjectMap → Reader ObjectMap
unfolding resize_objects serialize_objects
serialize old = skip_bytes 12 >> serialize_counted old

-- `increment_drop_id`, on a std::uint32_t.
unfoldable pub increment_drop_id : ObjectMap → ObjectMap
increment_drop_id m = record m { drop_id = (m.drop_id + 1) % 2 ^ 32 }
