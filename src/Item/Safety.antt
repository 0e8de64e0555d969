-- ===== src/Item/Safety.antt =====
-- item_database.cpp: parse_item on any input.
use gtproxy.Prelude.{refl, ℕ, [], Bytes, arith, leb, inl, inr, Bool-cases}
use gtproxy.Utils.ByteStream.{Reader, ◌>>=◌, read_data, read_into, read_string_into}
use gtproxy.Utils.ByteStream.Fields.{read_array}
use gtproxy.Utils.ByteStream.Safety.{
  IsSafe, IsSafe-bind, IsSafe-map, IsSafe-return, read_data-IsSafe, read_into-IsSafe,
  read_string_into-IsSafe,
}
use gtproxy.Item.Reading.{
  read_kind, read_texture, read_use_data, read_pet, read_growth, read_effects, read_reach,
  read_chair, read_renderer, read_unk_9, read_item,
}

module _ {ℓ} {B : Type ℓ} where
  uint-IsSafe :
      (w old : ℕ) (f : ℕ → Reader B) → ((x : ℕ) → IsSafe (f x)) → IsSafe (read_into w old >>= f)
  uint-IsSafe w old f h = IsSafe-bind (read_into w old) f (read_into-IsSafe w old) h

  str-IsSafe :
      (f : Bytes → Reader B) → ((x : Bytes) → IsSafe (f x)) → IsSafe (read_string_into 2 [] >>= f)
  str-IsSafe f h = IsSafe-bind (read_string_into 2 []) f (read_string_into-IsSafe 2 []) h

  array-IsSafe :
      (n : ℕ) (old : Bytes) (f : Bytes → Reader B)
      → ((x : Bytes) → IsSafe (f x))
      → IsSafe (read_array n old >>= f)
  array-IsSafe n old f h =
      IsSafe-bind (read_array n old) f (IsSafe-map (read_data n) _ (read_data-IsSafe n)) h

kind-IsSafe : IsSafe read_kind
unfolding read_kind
kind-IsSafe = uint-IsSafe 4 0 _ λ item_id. uint-IsSafe 2 0 _ λ flags. uint-IsSafe 1 0 _ λ item_type.
    uint-IsSafe 1 0 _ λ material. str-IsSafe _ λ item_name. λ s g. (refl, omega arith, g.0)

texture-IsSafe : IsSafe read_texture
unfolding read_texture
texture-IsSafe = str-IsSafe _ λ texture_file_path. uint-IsSafe 4 0 _ λ texture_file_hash.
    uint-IsSafe 1 0 _ λ visual_effect. uint-IsSafe 4 0 _ λ cooking_time.
      uint-IsSafe 1 0 _ λ texture_coord_x. uint-IsSafe 1 0 _ λ texture_coord_y.
        uint-IsSafe 1 0 _
          λ texture_type. uint-IsSafe 1 0 _ λ is_stripey_wallpaper. λ s g. (refl, omega arith, g.0)

use_data-IsSafe : IsSafe read_use_data
unfolding read_use_data
use_data-IsSafe = uint-IsSafe 1 0 _ λ collision_type. uint-IsSafe 1 0 _ λ health.
    uint-IsSafe 4 0 _ λ reset_time. uint-IsSafe 1 0 _ λ clothing_type. uint-IsSafe 2 0 _ λ rarity.
      uint-IsSafe 1 0 _ λ max_amount. str-IsSafe _ λ extra_file.
        uint-IsSafe 4 0 _
          λ extra_file_hash. uint-IsSafe 4 0 _ λ animation_time. λ s g. (refl, omega arith, g.0)

pet-IsSafe : IsSafe read_pet
unfolding read_pet
pet-IsSafe = str-IsSafe _ λ pet_name. str-IsSafe _ λ pet_prefix.
    str-IsSafe _ λ pet_suffix. str-IsSafe _ λ pet_ability. λ s g. (refl, omega arith, g.0)

growth-IsSafe : IsSafe read_growth
unfolding read_growth
growth-IsSafe = uint-IsSafe 1 0 _ λ seed_base. uint-IsSafe 1 0 _ λ seed_overlay.
    uint-IsSafe 1 0 _ λ tree_base. uint-IsSafe 1 0 _ λ tree_leaves. uint-IsSafe 4 0 _ λ seed_color.
      uint-IsSafe 4 0 _ λ seed_overlay_color.
        uint-IsSafe 4 0 _
          λ ingredient. uint-IsSafe 4 0 _ λ grow_time. λ s g. (refl, omega arith, g.0)

effects-IsSafe : IsSafe read_effects
unfolding read_effects
effects-IsSafe = uint-IsSafe 4 0 _ λ fx_flag. str-IsSafe _ λ animating_coordinates.
    str-IsSafe _ λ animating_texture_file. str-IsSafe _ λ animating_coordinates_2.
      uint-IsSafe 4 0 _ λ unk_1. uint-IsSafe 4 0 _ λ unk_2.
        uint-IsSafe 4 0 _ λ flags_2. array-IsSafe 60 _ _ λ unk_3. λ s g. (refl, omega arith, g.0)

reach-IsSafe : IsSafe read_reach
unfolding read_reach
reach-IsSafe = uint-IsSafe 4 0 _ λ tile_range. uint-IsSafe 4 0 _ λ vault_capacity.
    str-IsSafe _ λ punch_options. uint-IsSafe 4 0 _ λ unk_4. array-IsSafe 9 _ _ λ body_part_list.
      uint-IsSafe 4 0 _ λ light_range. uint-IsSafe 4 0 _ λ unk_5. λ s g. (refl, omega arith, g.0)

chair-IsSafe : IsSafe read_chair
unfolding read_chair
chair-IsSafe = uint-IsSafe 1 0 _ λ can_sit. uint-IsSafe 4 0 _ λ player_offset_x.
    uint-IsSafe 4 0 _ λ player_offset_y. uint-IsSafe 4 0 _ λ chair_texture_x.
      uint-IsSafe 4 0 _ λ chair_texture_y. uint-IsSafe 4 0 _ λ chair_leg_offset_x.
        uint-IsSafe 4 0 _
          λ chair_leg_offset_y. str-IsSafe _ λ chair_texture_file. λ s g. (refl, omega arith, g.0)

renderer-IsSafe : IsSafe read_renderer
unfolding read_renderer
renderer-IsSafe = str-IsSafe _ λ renderer_data_file. uint-IsSafe 4 0 _ λ unk_6.
    uint-IsSafe 4 0 _ λ renderer_data_file_hash. array-IsSafe 9 _ _ λ unk_7.
      uint-IsSafe 2 0 _ λ unk_8.
        str-IsSafe _ λ info. array-IsSafe 4 _ _ λ ingredients. λ s g. (refl, omega arith, g.0)

unk_9-IsSafe : (version : ℕ) → IsSafe (read_unk_9 version)
unfolding read_unk_9
unk_9-IsSafe version = elim (Bool-cases (leb 24 version)) [
  | inl e ↦ rw e (read_into-IsSafe 1 0)
  | inr e ↦ rw e (IsSafe-return {A = ℕ} 0)
]

pub read_item-IsSafe : (version : ℕ) → IsSafe (read_item version)
unfolding read_item
read_item-IsSafe version = IsSafe-bind read_kind _ kind-IsSafe λ kind.
    IsSafe-bind read_texture _ texture-IsSafe λ texture.
      IsSafe-bind read_use_data _ use_data-IsSafe λ use_data.
        IsSafe-bind read_pet _ pet-IsSafe λ pet. IsSafe-bind read_growth _ growth-IsSafe λ growth.
          IsSafe-bind read_effects _ effects-IsSafe λ effects.
            IsSafe-bind read_reach _ reach-IsSafe λ reach.
              IsSafe-bind read_chair _ chair-IsSafe λ chair.
                IsSafe-bind read_renderer _ renderer-IsSafe
                  λ renderer. IsSafe-map (read_unk_9 version) _ (unk_9-IsSafe version)
