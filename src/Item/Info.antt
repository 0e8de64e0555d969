-- ===== src/Item/Info.antt =====
-- item/item_info.hpp: the fields of ItemInfo, in the groups in which parse_item reads them. A flag
-- or an enumeration is the number that its bytes stand for; a signed word is its bits.
use gtproxy.Prelude.{ℕ, Bytes}

-- What the item is.
pub record Kind : Type 0 where
  pub item_id : ℕ
  pub flags : ℕ
  pub item_type : ℕ
  pub material : ℕ
  pub item_name : Bytes

-- How it is drawn.
pub record Texture : Type 0 where
  pub texture_file_path : Bytes
  pub texture_file_hash : ℕ
  pub visual_effect : ℕ
  pub cooking_time : ℕ
  pub texture_coord_x : ℕ
  pub texture_coord_y : ℕ
  pub texture_type : ℕ
  pub is_stripey_wallpaper : ℕ

-- How it collides, breaks and is worn.
pub record Use : Type 0 where
  pub collision_type : ℕ
  pub health : ℕ
  pub reset_time : ℕ
  pub clothing_type : ℕ
  pub rarity : ℕ
  pub max_amount : ℕ
  pub extra_file : Bytes
  pub extra_file_hash : ℕ
  pub animation_time : ℕ

-- The pet.
pub record Pet : Type 0 where
  pub pet_name : Bytes
  pub pet_prefix : Bytes
  pub pet_suffix : Bytes
  pub pet_ability : Bytes

-- The seed and the tree; a Color is four bytes.
pub record Growth : Type 0 where
  pub seed_base : ℕ
  pub seed_overlay : ℕ
  pub tree_base : ℕ
  pub tree_leaves : ℕ
  pub seed_color : ℕ
  pub seed_overlay_color : ℕ
  pub ingredient : ℕ
  pub grow_time : ℕ

-- The effects, up to the sixty bytes of `__unk_3`.
pub record Effects : Type 0 where
  pub fx_flag : ℕ
  pub animating_coordinates : Bytes
  pub animating_texture_file : Bytes
  pub animating_coordinates_2 : Bytes
  pub unk_1 : ℕ
  pub unk_2 : ℕ
  pub flags_2 : ℕ
  pub unk_3 : Bytes

-- Ranges, and the parts of the body that a cloth covers.
pub record Reach : Type 0 where
  pub tile_range : ℕ
  pub vault_capacity : ℕ
  pub punch_options : Bytes
  pub unk_4 : ℕ
  pub body_part_list : Bytes
  pub light_range : ℕ
  pub unk_5 : ℕ

-- The chair.
pub record Chair : Type 0 where
  pub can_sit : ℕ
  pub player_offset_x : ℕ
  pub player_offset_y : ℕ
  pub chair_texture_x : ℕ
  pub chair_texture_y : ℕ
  pub chair_leg_offset_x : ℕ
  pub chair_leg_offset_y : ℕ
  pub chair_texture_file : Bytes

-- The renderer; `ingredients` is the four bytes of its two words.
pub record Renderer : Type 0 where
  pub renderer_data_file : Bytes
  pub unk_6 : ℕ
  pub renderer_data_file_hash : ℕ
  pub unk_7 : Bytes
  pub unk_8 : ℕ
  pub info : Bytes
  pub ingredients : Bytes

pub record ItemInfo : Type 0 where
  pub kind : Kind
  pub texture : Texture
  pub use_data : Use
  pub pet : Pet
  pub growth : Growth
  pub effects : Effects
  pub reach : Reach
  pub chair : Chair
  pub renderer : Renderer
  pub unk_9 : ℕ
