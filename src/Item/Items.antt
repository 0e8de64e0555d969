-- ===== src/Item/Items.antt =====
-- item_database.cpp: parse_item on the bytes of an item.
use gtproxy.Prelude.{
  if◌then◌else◌, Bytes, ◌^◌, ◌<◌, ℕ, ◌≡◌, sym, false, some, [], ◌++◌, leb, inl, inr, Bool-cases,
  subst,
}
use gtproxy.Utils.ByteStream.{read_string_into, ◌>>=◌, return, to_le}
use gtproxy.Utils.ByteStream.Reads.{
  prefixed, Reads, Reads-bind, Reads-map, Reads-return, Reads-uint,
}
use gtproxy.Utils.ByteStream.Fields.{Text, Byte, u8_then, u16_then, u32_then, str_then, array_then}
use gtproxy.Item.Info.{ItemInfo, Kind, Texture, Use, Pet, Growth, Effects, Reach, Chair, Renderer}
use gtproxy.Item.Cipher.{
  AllByte, decrypt_item_name, decrypt_item_name-twice, length-decrypt_item_name,
}
use gtproxy.Item.Reading.{
  read_kind, read_texture, read_use_data, read_pet, read_growth, read_effects, read_reach,
  read_chair, read_renderer, read_unk_9, read_item, parse_item,
}
use gtproxy.Item.Wire.{
  item_bytes, ItemFits, kind_bytes, KindFits, texture_bytes, TextureFits, use_data_bytes, UseFits,
  pet_bytes, PetFits, growth_bytes, GrowthFits, effects_bytes, EffectsFits, reach_bytes, ReachFits,
  chair_bytes, ChairFits, renderer_bytes, RendererFits,
}

-- The name is encrypted in the file.
Reads-item_name :
    (name : Bytes) (item_id : ℕ) (make : Bytes → Kind)
    → Text name
    → AllByte name
    → Reads
        (read_string_into 2 [] >>= λ e. return (make (decrypt_item_name e item_id)))
        (prefixed 2 (decrypt_item_name name item_id) ++ [])
        (make name)
Reads-item_name name item_id make fits all_byte =
    str_then (decrypt_item_name name item_id) _ [] (make name)
      (subst (λ (n : ℕ). n < 256 ^ 2) (sym (length-decrypt_item_name name item_id)) fits)
      (subst (λ (n : Bytes). Reads (return (make n)) [] (make name))
        (sym (decrypt_item_name-twice name item_id all_byte)) (Reads-return (make name)))

Reads-kind : (k : Kind) → KindFits k → Reads read_kind (kind_bytes k) k
unfolding read_kind
Reads-kind k (h1, h2, h3, h4, h5, h6) = u32_then k.item_id 0 _ _ _ h1 (
    u16_then k.flags 0 _ _ _ h2 (
      u8_then k.item_type 0 _ _ _ h3 (
        u8_then k.material 0 _ _ _ h4
          (Reads-item_name k.item_name k.item_id (λ n. record k { item_name = n }) h5 h6))))

Reads-texture : (t : Texture) → TextureFits t → Reads read_texture (texture_bytes t) t
unfolding read_texture
Reads-texture t (h1, h2, h3, h4, h5, h6, h7, h8) = str_then t.texture_file_path _ _ _ h1 (
    u32_then t.texture_file_hash 0 _ _ _ h2 (
      u8_then t.visual_effect 0 _ _ _ h3 (
        u32_then t.cooking_time 0 _ _ _ h4 (
          u8_then t.texture_coord_x 0 _ _ _ h5 (
            u8_then t.texture_coord_y 0 _ _ _ h6 (
              u8_then t.texture_type 0 _ _ _ h7
                (u8_then t.is_stripey_wallpaper 0 _ _ _ h8 (Reads-return t))))))))

Reads-use_data : (u : Use) → UseFits u → Reads read_use_data (use_data_bytes u) u
unfolding read_use_data
Reads-use_data u (h1, h2, h3, h4, h5, h6, h7, h8, h9) = u8_then u.collision_type 0 _ _ _ h1 (
    u8_then u.health 0 _ _ _ h2 (
      u32_then u.reset_time 0 _ _ _ h3 (
        u8_then u.clothing_type 0 _ _ _ h4 (
          u16_then u.rarity 0 _ _ _ h5 (
            u8_then u.max_amount 0 _ _ _ h6 (
              str_then u.extra_file _ _ _ h7 (
                u32_then u.extra_file_hash 0 _ _ _ h8
                  (u32_then u.animation_time 0 _ _ _ h9 (Reads-return u)))))))))

Reads-pet : (p : Pet) → PetFits p → Reads read_pet (pet_bytes p) p
unfolding read_pet
Reads-pet p (h1, h2, h3, h4) = str_then p.pet_name _ _ _ h1 (
    str_then p.pet_prefix _ _ _ h2
      (str_then p.pet_suffix _ _ _ h3 (str_then p.pet_ability _ _ _ h4 (Reads-return p))))

Reads-growth : (g : Growth) → GrowthFits g → Reads read_growth (growth_bytes g) g
unfolding read_growth
Reads-growth g (h1, h2, h3, h4, h5, h6, h7, h8) = u8_then g.seed_base 0 _ _ _ h1 (
    u8_then g.seed_overlay 0 _ _ _ h2 (
      u8_then g.tree_base 0 _ _ _ h3 (
        u8_then g.tree_leaves 0 _ _ _ h4 (
          u32_then g.seed_color 0 _ _ _ h5 (
            u32_then g.seed_overlay_color 0 _ _ _ h6 (
              u32_then g.ingredient 0 _ _ _ h7
                (u32_then g.grow_time 0 _ _ _ h8 (Reads-return g))))))))

Reads-effects : (e : Effects) → EffectsFits e → Reads read_effects (effects_bytes e) e
unfolding read_effects
Reads-effects e (h1, h2, h3, h4, h5, h6, h7, h8) = u32_then e.fx_flag 0 _ _ _ h1 (
    str_then e.animating_coordinates _ _ _ h2 (
      str_then e.animating_texture_file _ _ _ h3 (
        str_then e.animating_coordinates_2 _ _ _ h4 (
          u32_then e.unk_1 0 _ _ _ h5 (
            u32_then e.unk_2 0 _ _ _ h6 (
              u32_then e.flags_2 0 _ _ _ h7
                (array_then 60 e.unk_3 _ _ _ _ h8 (Reads-return e))))))))

Reads-reach : (r : Reach) → ReachFits r → Reads read_reach (reach_bytes r) r
unfolding read_reach
Reads-reach r (h1, h2, h3, h4, h5, h6, h7) = u32_then r.tile_range 0 _ _ _ h1 (
    u32_then r.vault_capacity 0 _ _ _ h2 (
      str_then r.punch_options _ _ _ h3 (
        u32_then r.unk_4 0 _ _ _ h4 (
          array_then 9 r.body_part_list _ _ _ _ h5
            (u32_then r.light_range 0 _ _ _ h6 (u32_then r.unk_5 0 _ _ _ h7 (Reads-return r)))))))

Reads-chair : (c : Chair) → ChairFits c → Reads read_chair (chair_bytes c) c
unfolding read_chair
Reads-chair c (h1, h2, h3, h4, h5, h6, h7, h8) = u8_then c.can_sit 0 _ _ _ h1 (
    u32_then c.player_offset_x 0 _ _ _ h2 (
      u32_then c.player_offset_y 0 _ _ _ h3 (
        u32_then c.chair_texture_x 0 _ _ _ h4 (
          u32_then c.chair_texture_y 0 _ _ _ h5 (
            u32_then c.chair_leg_offset_x 0 _ _ _ h6 (
              u32_then c.chair_leg_offset_y 0 _ _ _ h7
                (str_then c.chair_texture_file _ _ _ h8 (Reads-return c))))))))

Reads-renderer : (r : Renderer) → RendererFits r → Reads read_renderer (renderer_bytes r) r
unfolding read_renderer
Reads-renderer r (h1, h2, h3, h4, h5, h6, h7) = str_then r.renderer_data_file _ _ _ h1 (
    u32_then r.unk_6 0 _ _ _ h2 (
      u32_then r.renderer_data_file_hash 0 _ _ _ h3 (
        array_then 9 r.unk_7 _ _ _ _ h4 (
          u16_then r.unk_8 0 _ _ _ h5
            (str_then r.info _ _ _ h6 (array_then 4 r.ingredients _ _ _ _ h7 (Reads-return r)))))))

Reads-unk_9 :
    (version x : ℕ)
    → Byte x
    → (leb 24 version ≡ false → x ≡ 0)
    → Reads (read_unk_9 version) (if leb 24 version then to_le 1 x else []) x
unfolding read_unk_9
Reads-unk_9 version x h none_before = elim (Bool-cases (leb 24 version)) [
  | inl e ↦ rw e (Reads-uint 1 x 0 h)
  | inr e ↦ rw (e, none_before e) (Reads-return 0)
]

module _ (version : ℕ) (x : ItemInfo) (h : ItemFits version x) where
  Reads-item : Reads (read_item version) (item_bytes version x) x
  unfolding read_item
  Reads-item =
      Reads-bind read_kind _ (kind_bytes x.kind) _ x.kind x (Reads-kind x.kind h.kind_fits) (
        Reads-bind read_texture _ (texture_bytes x.texture) _ x.texture x
          (Reads-texture x.texture h.texture_fits)
          (Reads-bind read_use_data _ (use_data_bytes x.use_data) _ x.use_data x
            (Reads-use_data x.use_data h.use_data_fits)
            (Reads-bind read_pet _ (pet_bytes x.pet) _ x.pet x (Reads-pet x.pet h.pet_fits) (
              Reads-bind read_growth _ (growth_bytes x.growth) _ x.growth x
                (Reads-growth x.growth h.growth_fits)
                (Reads-bind read_effects _ (effects_bytes x.effects) _ x.effects x
                  (Reads-effects x.effects h.effects_fits)
                  (Reads-bind read_reach _ (reach_bytes x.reach) _ x.reach x
                    (Reads-reach x.reach h.reach_fits)
                    (Reads-bind read_chair _ (chair_bytes x.chair) _ x.chair x
                      (Reads-chair x.chair h.chair_fits)
                      (Reads-bind read_renderer _ (renderer_bytes x.renderer) _ x.renderer x
                        (Reads-renderer x.renderer h.renderer_fits)
                        (Reads-bind (read_unk_9 version) _
                          (if leb 24 version then to_le 1 x.unk_9 else []) [] x.unk_9 x
                          (Reads-unk_9 version x.unk_9 h.unk_9_fits h.no_unk_9)
                          (Reads-return x))))))))))

  pub Reads-parse_item : Reads (parse_item version) (item_bytes version x) (some x)
  unfolding parse_item
  Reads-parse_item = Reads-map (read_item version) some (item_bytes version x) x Reads-item
