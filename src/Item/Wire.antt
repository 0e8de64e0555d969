-- ===== src/Item/Wire.antt =====
-- The bytes of an item in items.dat.
use gtproxy.Prelude.{ℕ, ◌≡◌, false, List, [], ◌∷◌, ◌++◌, Bytes, length, leb, if◌then◌else◌}
use gtproxy.Utils.ByteStream.{to_le}
use gtproxy.Utils.ByteStream.Reads.{prefixed}
use gtproxy.Utils.ByteStream.Fields.{Byte, Half, Word, Text}
use gtproxy.Item.Info.{ItemInfo, Kind, Texture, Use, Pet, Growth, Effects, Reach, Chair, Renderer}
use gtproxy.Item.Cipher.{decrypt_item_name, AllByte}

abbrev pub join : List Bytes → Bytes
join [] = []
join (x ∷ xs) = x ++ join xs

abbrev pub kind_bytes : Kind → Bytes
kind_bytes k = join (
    (to_le 4 k.item_id)
    ∷ (to_le 2 k.flags)
    ∷ (to_le 1 k.item_type)
    ∷ (to_le 1 k.material)
    ∷ (prefixed 2 (decrypt_item_name k.item_name k.item_id))
    ∷ [])

abbrev pub KindFits : Kind → Type 0
KindFits k =
    Word k.item_id
    × Half k.flags
    × Byte k.item_type
    × Byte k.material
    × Text k.item_name
    × AllByte k.item_name

abbrev pub texture_bytes : Texture → Bytes
texture_bytes t = join (
    (prefixed 2 t.texture_file_path)
    ∷ (to_le 4 t.texture_file_hash)
    ∷ (to_le 1 t.visual_effect)
    ∷ (to_le 4 t.cooking_time)
    ∷ (to_le 1 t.texture_coord_x)
    ∷ (to_le 1 t.texture_coord_y)
    ∷ (to_le 1 t.texture_type)
    ∷ (to_le 1 t.is_stripey_wallpaper)
    ∷ [])

abbrev pub TextureFits : Texture → Type 0
TextureFits t =
    Text t.texture_file_path
    × Word t.texture_file_hash
    × Byte t.visual_effect
    × Word t.cooking_time
    × Byte t.texture_coord_x
    × Byte t.texture_coord_y
    × Byte t.texture_type
    × Byte t.is_stripey_wallpaper

abbrev pub use_data_bytes : Use → Bytes
use_data_bytes u = join (
    (to_le 1 u.collision_type)
    ∷ (to_le 1 u.health)
    ∷ (to_le 4 u.reset_time)
    ∷ (to_le 1 u.clothing_type)
    ∷ (to_le 2 u.rarity)
    ∷ (to_le 1 u.max_amount)
    ∷ (prefixed 2 u.extra_file)
    ∷ (to_le 4 u.extra_file_hash)
    ∷ (to_le 4 u.animation_time)
    ∷ [])

abbrev pub UseFits : Use → Type 0
UseFits u =
    Byte u.collision_type
    × Byte u.health
    × Word u.reset_time
    × Byte u.clothing_type
    × Half u.rarity
    × Byte u.max_amount
    × Text u.extra_file
    × Word u.extra_file_hash
    × Word u.animation_time

abbrev pub pet_bytes : Pet → Bytes
pet_bytes p = join (
    (prefixed 2 p.pet_name)
    ∷ (prefixed 2 p.pet_prefix)
    ∷ (prefixed 2 p.pet_suffix)
    ∷ (prefixed 2 p.pet_ability)
    ∷ [])

abbrev pub PetFits : Pet → Type 0
PetFits p = Text p.pet_name × Text p.pet_prefix × Text p.pet_suffix × Text p.pet_ability

abbrev pub growth_bytes : Growth → Bytes
growth_bytes g = join (
    (to_le 1 g.seed_base)
    ∷ (to_le 1 g.seed_overlay)
    ∷ (to_le 1 g.tree_base)
    ∷ (to_le 1 g.tree_leaves)
    ∷ (to_le 4 g.seed_color)
    ∷ (to_le 4 g.seed_overlay_color)
    ∷ (to_le 4 g.ingredient)
    ∷ (to_le 4 g.grow_time)
    ∷ [])

abbrev pub GrowthFits : Growth → Type 0
GrowthFits g =
    Byte g.seed_base
    × Byte g.seed_overlay
    × Byte g.tree_base
    × Byte g.tree_leaves
    × Word g.seed_color
    × Word g.seed_overlay_color
    × Word g.ingredient
    × Word g.grow_time

abbrev pub effects_bytes : Effects → Bytes
effects_bytes e = join (
    (to_le 4 e.fx_flag)
    ∷ (prefixed 2 e.animating_coordinates)
    ∷ (prefixed 2 e.animating_texture_file)
    ∷ (prefixed 2 e.animating_coordinates_2)
    ∷ (to_le 4 e.unk_1)
    ∷ (to_le 4 e.unk_2)
    ∷ (to_le 4 e.flags_2)
    ∷ e.unk_3
    ∷ [])

abbrev pub EffectsFits : Effects → Type 0
EffectsFits e =
    Word e.fx_flag
    × Text e.animating_coordinates
    × Text e.animating_texture_file
    × Text e.animating_coordinates_2
    × Word e.unk_1
    × Word e.unk_2
    × Word e.flags_2
    × (length e.unk_3 ≡ 60)

abbrev pub reach_bytes : Reach → Bytes
reach_bytes r = join (
    (to_le 4 r.tile_range)
    ∷ (to_le 4 r.vault_capacity)
    ∷ (prefixed 2 r.punch_options)
    ∷ (to_le 4 r.unk_4)
    ∷ r.body_part_list
    ∷ (to_le 4 r.light_range)
    ∷ (to_le 4 r.unk_5)
    ∷ [])

abbrev pub ReachFits : Reach → Type 0
ReachFits r =
    Word r.tile_range
    × Word r.vault_capacity
    × Text r.punch_options
    × Word r.unk_4
    × (length r.body_part_list ≡ 9)
    × Word r.light_range
    × Word r.unk_5

abbrev pub chair_bytes : Chair → Bytes
chair_bytes c = join (
    (to_le 1 c.can_sit)
    ∷ (to_le 4 c.player_offset_x)
    ∷ (to_le 4 c.player_offset_y)
    ∷ (to_le 4 c.chair_texture_x)
    ∷ (to_le 4 c.chair_texture_y)
    ∷ (to_le 4 c.chair_leg_offset_x)
    ∷ (to_le 4 c.chair_leg_offset_y)
    ∷ (prefixed 2 c.chair_texture_file)
    ∷ [])

abbrev pub ChairFits : Chair → Type 0
ChairFits c =
    Byte c.can_sit
    × Word c.player_offset_x
    × Word c.player_offset_y
    × Word c.chair_texture_x
    × Word c.chair_texture_y
    × Word c.chair_leg_offset_x
    × Word c.chair_leg_offset_y
    × Text c.chair_texture_file

abbrev pub renderer_bytes : Renderer → Bytes
renderer_bytes r = join (
    (prefixed 2 r.renderer_data_file)
    ∷ (to_le 4 r.unk_6)
    ∷ (to_le 4 r.renderer_data_file_hash)
    ∷ r.unk_7
    ∷ (to_le 2 r.unk_8)
    ∷ (prefixed 2 r.info)
    ∷ r.ingredients
    ∷ [])

abbrev pub RendererFits : Renderer → Type 0
RendererFits r =
    Text r.renderer_data_file
    × Word r.unk_6
    × Word r.renderer_data_file_hash
    × (length r.unk_7 ≡ 9)
    × Half r.unk_8
    × Text r.info
    × (length r.ingredients ≡ 4)

abbrev pub item_bytes : (version : ℕ) → ItemInfo → Bytes
item_bytes version x = join (
    kind_bytes x.kind
    ∷ texture_bytes x.texture
    ∷ use_data_bytes x.use_data
    ∷ pet_bytes x.pet
    ∷ growth_bytes x.growth
    ∷ effects_bytes x.effects
    ∷ reach_bytes x.reach
    ∷ chair_bytes x.chair
    ∷ renderer_bytes x.renderer
    ∷ (if leb 24 version then to_le 1 x.unk_9 else [])
    ∷ [])

-- The values fit their fields; before version 24 there is no `__unk_9`.
pub record ItemFits (version : ℕ) (x : ItemInfo) : Type 0 where
  pub kind_fits : KindFits x.kind
  pub texture_fits : TextureFits x.texture
  pub use_data_fits : UseFits x.use_data
  pub pet_fits : PetFits x.pet
  pub growth_fits : GrowthFits x.growth
  pub effects_fits : EffectsFits x.effects
  pub reach_fits : ReachFits x.reach
  pub chair_fits : ChairFits x.chair
  pub renderer_fits : RendererFits x.renderer
  pub unk_9_fits : Byte x.unk_9
  pub no_unk_9 : leb 24 version ≡ false → x.unk_9 ≡ 0
