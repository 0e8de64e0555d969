-- ===== src/Item/Reading.antt =====
-- item/item_database.cpp: parse_item. What a read that fails leaves is what `ItemInfo item{}` holds.
use gtproxy.Prelude.{ℕ, [], Option, some, Bytes, replicate, leb, if◌then◌else◌}
use gtproxy.Utils.ByteStream.{Reader, ◌>>=◌, return, read_into, read_string_into}
use gtproxy.Utils.ByteStream.Fields.{read_array}
use gtproxy.Item.Info.{ItemInfo, Kind, Texture, Use, Pet, Growth, Effects, Reach, Chair, Renderer}
use gtproxy.Item.Cipher.{decrypt_item_name}

-- The length of a string is of std::uint16_t.
abbrev str : Reader Bytes
str = read_string_into 2 []

unfoldable pub read_kind : Reader Kind
unfolding decrypt_item_name
read_kind = do
  item_id ← read_into 4 0
  flags ← read_into 2 0
  item_type ← read_into 1 0
  material ← read_into 1 0
  item_name ← str
  return (record {
    item_id = item_id;
    flags = flags;
    item_type = item_type;
    material = material;
    item_name = decrypt_item_name item_name item_id;
  })

unfoldable pub read_texture : Reader Texture
read_texture = do
  texture_file_path ← str
  texture_file_hash ← read_into 4 0
  visual_effect ← read_into 1 0
  cooking_time ← read_into 4 0
  texture_coord_x ← read_into 1 0
  texture_coord_y ← read_into 1 0
  texture_type ← read_into 1 0
  is_stripey_wallpaper ← read_into 1 0
  return (record {
    texture_file_path = texture_file_path;
    texture_file_hash = texture_file_hash;
    visual_effect = visual_effect;
    cooking_time = cooking_time;
    texture_coord_x = texture_coord_x;
    texture_coord_y = texture_coord_y;
    texture_type = texture_type;
    is_stripey_wallpaper = is_stripey_wallpaper;
  })

unfoldable pub read_use_data : Reader Use
read_use_data = do
  collision_type ← read_into 1 0
  health ← read_into 1 0
  reset_time ← read_into 4 0
  clothing_type ← read_into 1 0
  rarity ← read_into 2 0
  max_amount ← read_into 1 0
  extra_file ← str
  extra_file_hash ← read_into 4 0
  animation_time ← read_into 4 0
  return (record {
    collision_type = collision_type;
    health = health;
    reset_time = reset_time;
    clothing_type = clothing_type;
    rarity = rarity;
    max_amount = max_amount;
    extra_file = extra_file;
    extra_file_hash = extra_file_hash;
    animation_time = animation_time;
  })

unfoldable pub read_pet : Reader Pet
read_pet = do
  pet_name ← str
  pet_prefix ← str
  pet_suffix ← str
  pet_ability ← str
  return (record {
    pet_name = pet_name;
    pet_prefix = pet_prefix;
    pet_suffix = pet_suffix;
    pet_ability = pet_ability;
  })

unfoldable pub read_growth : Reader Growth
read_growth = do
  seed_base ← read_into 1 0
  seed_overlay ← read_into 1 0
  tree_base ← read_into 1 0
  tree_leaves ← read_into 1 0
  seed_color ← read_into 4 0
  seed_overlay_color ← read_into 4 0
  ingredient ← read_into 4 0
  grow_time ← read_into 4 0
  return (record {
    seed_base = seed_base;
    seed_overlay = seed_overlay;
    tree_base = tree_base;
    tree_leaves = tree_leaves;
    seed_color = seed_color;
    seed_overlay_color = seed_overlay_color;
    ingredient = ingredient;
    grow_time = grow_time;
  })

unfoldable pub read_effects : Reader Effects
read_effects = do
  fx_flag ← read_into 4 0
  animating_coordinates ← str
  animating_texture_file ← str
  animating_coordinates_2 ← str
  unk_1 ← read_into 4 0
  unk_2 ← read_into 4 0
  flags_2 ← read_into 4 0
  unk_3 ← read_array 60 (replicate 60 0)
  return (record {
    fx_flag = fx_flag;
    animating_coordinates = animating_coordinates;
    animating_texture_file = animating_texture_file;
    animating_coordinates_2 = animating_coordinates_2;
    unk_1 = unk_1;
    unk_2 = unk_2;
    flags_2 = flags_2;
    unk_3 = unk_3;
  })

unfoldable pub read_reach : Reader Reach
read_reach = do
  tile_range ← read_into 4 0
  vault_capacity ← read_into 4 0
  punch_options ← str
  unk_4 ← read_into 4 0
  body_part_list ← read_array 9 (replicate 9 0)
  light_range ← read_into 4 0
  unk_5 ← read_into 4 0
  return (record {
    tile_range = tile_range;
    vault_capacity = vault_capacity;
    punch_options = punch_options;
    unk_4 = unk_4;
    body_part_list = body_part_list;
    light_range = light_range;
    unk_5 = unk_5;
  })

unfoldable pub read_chair : Reader Chair
read_chair = do
  can_sit ← read_into 1 0
  player_offset_x ← read_into 4 0
  player_offset_y ← read_into 4 0
  chair_texture_x ← read_into 4 0
  chair_texture_y ← read_into 4 0
  chair_leg_offset_x ← read_into 4 0
  chair_leg_offset_y ← read_into 4 0
  chair_texture_file ← str
  return (record {
    can_sit = can_sit;
    player_offset_x = player_offset_x;
    player_offset_y = player_offset_y;
    chair_texture_x = chair_texture_x;
    chair_texture_y = chair_texture_y;
    chair_leg_offset_x = chair_leg_offset_x;
    chair_leg_offset_y = chair_leg_offset_y;
    chair_texture_file = chair_texture_file;
  })

unfoldable pub read_renderer : Reader Renderer
read_renderer = do
  renderer_data_file ← str
  unk_6 ← read_into 4 0
  renderer_data_file_hash ← read_into 4 0
  unk_7 ← read_array 9 (replicate 9 0)
  unk_8 ← read_into 2 0
  info ← str
  ingredients ← read_array 4 (replicate 4 0)
  return (record {
    renderer_data_file = renderer_data_file;
    unk_6 = unk_6;
    renderer_data_file_hash = renderer_data_file_hash;
    unk_7 = unk_7;
    unk_8 = unk_8;
    info = info;
    ingredients = ingredients;
  })

-- `__unk_9` came with version 24.
unfoldable pub read_unk_9 : (version : ℕ) → Reader ℕ
read_unk_9 version = if leb 24 version then read_into 1 0 else return 0

unfoldable pub read_item : (version : ℕ) → Reader ItemInfo
unfolding read_kind read_texture read_use_data read_pet read_growth read_effects read_reach
    read_chair read_renderer read_unk_9
read_item version = do
  kind ← read_kind
  texture ← read_texture
  use_data ← read_use_data
  pet ← read_pet
  growth ← read_growth
  effects ← read_effects
  reach ← read_reach
  chair ← read_chair
  renderer ← read_renderer
  unk_9 ← read_unk_9 version
  return (record {
    kind = kind;
    texture = texture;
    use_data = use_data;
    pet = pet;
    growth = growth;
    effects = effects;
    reach = reach;
    chair = chair;
    renderer = renderer;
    unk_9 = unk_9;
  })

-- There is always an item: the results of the reads are dropped.
unfoldable pub parse_item : (version : ℕ) → Reader (Option ItemInfo)
unfolding read_item
parse_item version = do item ← read_item version; return (some item)
