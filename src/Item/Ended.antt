-- ===== src/Item/Ended.antt =====
-- item_database.cpp: parse_item where the input has ended.
use gtproxy.Prelude.{
  ℕ, [], Bytes, false, some, none, ◌≡◌, ◌∙◌, refl, ◌<◌, arith, leb, inl, inr, Bool-cases, replicate,
}
use gtproxy.Utils.ByteStream.{
  ByteStream, done, Reader, ◌>>=◌, read_uint, read_data, read_string, read_into, read_string_into,
  left,
}
use gtproxy.Utils.ByteStream.Reads.{bind_done}
use gtproxy.Utils.ByteStream.Fields.{read_array}
use gtproxy.Item.Info.{ItemInfo}
use gtproxy.Item.Cipher.{decrypt_item_name, decrypt_from}
use gtproxy.Item.Reading.{
  read_kind, read_texture, read_use_data, read_pet, read_growth, read_effects, read_reach,
  read_chair, read_renderer, read_unk_9, read_item, parse_item,
}

-- What `ItemInfo item{}` holds.
abbrev pub blank_item : ItemInfo
blank_item = record {
  kind = record { item_id = 0; flags = 0; item_type = 0; material = 0; item_name = [] };
  texture = record {
    texture_file_path = [];
    texture_file_hash = 0;
    visual_effect = 0;
    cooking_time = 0;
    texture_coord_x = 0;
    texture_coord_y = 0;
    texture_type = 0;
    is_stripey_wallpaper = 0;
  };
  use_data = record {
    collision_type = 0;
    health = 0;
    reset_time = 0;
    clothing_type = 0;
    rarity = 0;
    max_amount = 0;
    extra_file = [];
    extra_file_hash = 0;
    animation_time = 0;
  };
  pet = record { pet_name = []; pet_prefix = []; pet_suffix = []; pet_ability = [] };
  growth = record {
    seed_base = 0;
    seed_overlay = 0;
    tree_base = 0;
    tree_leaves = 0;
    seed_color = 0;
    seed_overlay_color = 0;
    ingredient = 0;
    grow_time = 0;
  };
  effects = record {
    fx_flag = 0;
    animating_coordinates = [];
    animating_texture_file = [];
    animating_coordinates_2 = [];
    unk_1 = 0;
    unk_2 = 0;
    flags_2 = 0;
    unk_3 = replicate 60 0;
  };
  reach = record {
    tile_range = 0;
    vault_capacity = 0;
    punch_options = [];
    unk_4 = 0;
    body_part_list = replicate 9 0;
    light_range = 0;
    unk_5 = 0;
  };
  chair = record {
    can_sit = 0;
    player_offset_x = 0;
    player_offset_y = 0;
    chair_texture_x = 0;
    chair_texture_y = 0;
    chair_leg_offset_x = 0;
    chair_leg_offset_y = 0;
    chair_texture_file = [];
  };
  renderer = record {
    renderer_data_file = [];
    unk_6 = 0;
    renderer_data_file_hash = 0;
    unk_7 = replicate 9 0;
    unk_8 = 0;
    info = [];
    ingredients = replicate 4 0;
  };
  unk_9 = 0;
}

-- Where nothing is left, `m` takes nothing and returns `a`.
abbrev Idle {ℓ} : {A : Type ℓ} → Reader A → A → Type ℓ
Idle m a = (s : ByteStream) → left s ≡ 0 → m s ≡ done a s

read_data-Idle : (n : ℕ) → 0 < n → Idle (read_data n) none
unfolding read_data
read_data-Idle n pos s h = ground arith

read_uint-Idle : (w old : ℕ) → 0 < w → Idle (read_uint w old) (false, old)
unfolding read_uint
read_uint-Idle w old pos s h = bind_done (read_data w) _ s (read_data-Idle w pos s h)

Idle-bind {ℓ κ} :
    {A : Type ℓ} {B : Type κ} (m : Reader A) (f : A → Reader B) (a : A) (b : B)
    → Idle m a
    → Idle (f a) b
    → Idle (m >>= f) b
Idle-bind m f a b hm hf s h = bind_done m f s (hm s h) ∙ hf s h

read_string-Idle : (str : Bytes) → Idle (read_string 2 str 0) (false, str)
unfolding read_string
read_string-Idle str s h = bind_done (read_uint 2 0) _ s (read_uint-Idle 2 0 (omega arith) s h)

module _ {ℓ} {B : Type ℓ} (b : B) where
  uint-Idle :
      (w old : ℕ) (f : ℕ → Reader B) → 0 < w → Idle (f old) b → Idle (read_into w old >>= f) b
  uint-Idle w old f pos h =
      Idle-bind (read_into w old) f old b
        (λ s e. bind_done (read_uint w old) _ s (read_uint-Idle w old pos s e)) h

  str-Idle : (f : Bytes → Reader B) → Idle (f []) b → Idle (read_string_into 2 [] >>= f) b
  str-Idle f h =
      Idle-bind (read_string_into 2 []) f [] b
        (λ s e. bind_done (read_string 2 [] 0) _ s (read_string-Idle [] s e)) h

  array-Idle :
      (n : ℕ) (old : Bytes) (f : Bytes → Reader B)
      → 0 < n
      → Idle (f old) b
      → Idle (read_array n old >>= f) b
  array-Idle n old f pos h =
      Idle-bind (read_array n old) f old b
        (λ s e. bind_done (read_data n) _ s (read_data-Idle n pos s e)) h

kind-Idle : Idle read_kind blank_item.kind
unfolding read_kind decrypt_item_name decrypt_from
kind-Idle = uint-Idle blank_item.kind 4 0 _ (omega arith) (
    uint-Idle blank_item.kind 2 0 _ (omega arith) (
      uint-Idle blank_item.kind 1 0 _ (omega arith)
        (uint-Idle blank_item.kind 1 0 _ (omega arith) (str-Idle blank_item.kind _ (λ s h. refl)))))

texture-Idle : Idle read_texture blank_item.texture
unfolding read_texture
texture-Idle = str-Idle blank_item.texture _ (
    uint-Idle blank_item.texture 4 0 _ (omega arith) (
      uint-Idle blank_item.texture 1 0 _ (omega arith) (
        uint-Idle blank_item.texture 4 0 _ (omega arith) (
          uint-Idle blank_item.texture 1 0 _ (omega arith) (
            uint-Idle blank_item.texture 1 0 _ (omega arith) (
              uint-Idle blank_item.texture 1 0 _ (omega arith)
                (uint-Idle blank_item.texture 1 0 _ (omega arith) (λ s h. refl))))))))

use_data-Idle : Idle read_use_data blank_item.use_data
unfolding read_use_data
use_data-Idle = uint-Idle blank_item.use_data 1 0 _ (omega arith) (
    uint-Idle blank_item.use_data 1 0 _ (omega arith) (
      uint-Idle blank_item.use_data 4 0 _ (omega arith) (
        uint-Idle blank_item.use_data 1 0 _ (omega arith) (
          uint-Idle blank_item.use_data 2 0 _ (omega arith) (
            uint-Idle blank_item.use_data 1 0 _ (omega arith) (
              str-Idle blank_item.use_data _ (
                uint-Idle blank_item.use_data 4 0 _ (omega arith)
                  (uint-Idle blank_item.use_data 4 0 _ (omega arith) (λ s h. refl)))))))))

pet-Idle : Idle read_pet blank_item.pet
unfolding read_pet
pet-Idle = str-Idle blank_item.pet _ (
    str-Idle blank_item.pet _ (str-Idle blank_item.pet _ (str-Idle blank_item.pet _ (λ s h. refl))))

growth-Idle : Idle read_growth blank_item.growth
unfolding read_growth
growth-Idle = uint-Idle blank_item.growth 1 0 _ (omega arith) (
    uint-Idle blank_item.growth 1 0 _ (omega arith) (
      uint-Idle blank_item.growth 1 0 _ (omega arith) (
        uint-Idle blank_item.growth 1 0 _ (omega arith) (
          uint-Idle blank_item.growth 4 0 _ (omega arith) (
            uint-Idle blank_item.growth 4 0 _ (omega arith) (
              uint-Idle blank_item.growth 4 0 _ (omega arith)
                (uint-Idle blank_item.growth 4 0 _ (omega arith) (λ s h. refl))))))))

effects-Idle : Idle read_effects blank_item.effects
unfolding read_effects
effects-Idle = uint-Idle blank_item.effects 4 0 _ (omega arith) (
    str-Idle blank_item.effects _ (
      str-Idle blank_item.effects _ (
        str-Idle blank_item.effects _ (
          uint-Idle blank_item.effects 4 0 _ (omega arith) (
            uint-Idle blank_item.effects 4 0 _ (omega arith) (
              uint-Idle blank_item.effects 4 0 _ (omega arith)
                (array-Idle blank_item.effects 60 _ _ (omega arith) (λ s h. refl))))))))

reach-Idle : Idle read_reach blank_item.reach
unfolding read_reach
reach-Idle = uint-Idle blank_item.reach 4 0 _ (omega arith) (
    uint-Idle blank_item.reach 4 0 _ (omega arith) (
      str-Idle blank_item.reach _ (
        uint-Idle blank_item.reach 4 0 _ (omega arith) (
          array-Idle blank_item.reach 9 _ _ (omega arith) (
            uint-Idle blank_item.reach 4 0 _ (omega arith)
              (uint-Idle blank_item.reach 4 0 _ (omega arith) (λ s h. refl)))))))

chair-Idle : Idle read_chair blank_item.chair
unfolding read_chair
chair-Idle = uint-Idle blank_item.chair 1 0 _ (omega arith) (
    uint-Idle blank_item.chair 4 0 _ (omega arith) (
      uint-Idle blank_item.chair 4 0 _ (omega arith) (
        uint-Idle blank_item.chair 4 0 _ (omega arith) (
          uint-Idle blank_item.chair 4 0 _ (omega arith) (
            uint-Idle blank_item.chair 4 0 _ (omega arith) (
              uint-Idle blank_item.chair 4 0 _ (omega arith)
                (str-Idle blank_item.chair _ (λ s h. refl))))))))

renderer-Idle : Idle read_renderer blank_item.renderer
unfolding read_renderer
renderer-Idle = str-Idle blank_item.renderer _ (
    uint-Idle blank_item.renderer 4 0 _ (omega arith) (
      uint-Idle blank_item.renderer 4 0 _ (omega arith) (
        array-Idle blank_item.renderer 9 _ _ (omega arith) (
          uint-Idle blank_item.renderer 2 0 _ (omega arith) (
            str-Idle blank_item.renderer _
              (array-Idle blank_item.renderer 4 _ _ (omega arith) (λ s h. refl)))))))

unk_9-Idle : (version : ℕ) → Idle (read_unk_9 version) 0
unfolding read_unk_9
unk_9-Idle version s h = elim (Bool-cases (leb 24 version)) [
  | inl e ↦ rw e (bind_done (read_uint 1 0) _ s (read_uint-Idle 1 0 (omega arith) s h))
  | inr e ↦ rw e refl
]

module _ (version : ℕ) where
  read_item-Idle : Idle (read_item version) blank_item
  unfolding read_item
  read_item-Idle = Idle-bind read_kind _ blank_item.kind blank_item kind-Idle (
      Idle-bind read_texture _ blank_item.texture blank_item texture-Idle (
        Idle-bind read_use_data _ blank_item.use_data blank_item use_data-Idle (
          Idle-bind read_pet _ blank_item.pet blank_item pet-Idle (
            Idle-bind read_growth _ blank_item.growth blank_item growth-Idle (
              Idle-bind read_effects _ blank_item.effects blank_item effects-Idle (
                Idle-bind read_reach _ blank_item.reach blank_item reach-Idle (
                  Idle-bind read_chair _ blank_item.chair blank_item chair-Idle (
                    Idle-bind read_renderer _ blank_item.renderer blank_item renderer-Idle (
                      Idle-bind (read_unk_9 version) _ 0 blank_item (unk_9-Idle version)
                        (λ s h. refl))))))))))

  pub parse_item-Idle : Idle (parse_item version) (some blank_item)
  unfolding parse_item
  parse_item-Idle s h = bind_done (read_item version) _ s (read_item-Idle s h)
