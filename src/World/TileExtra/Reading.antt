-- ===== src/World/TileExtra/Reading.antt =====
-- tile_extra.cpp: `TileExtra::serialize` on the bytes of each kind of data.
use gtproxy.Utils.ByteStream.Fields.{
  Byte, Word, u8_then, u32_then, str_then, u8_last, u32_last, str_last,
}
use gtproxy.Prelude.{ℕ, ◌≡◌, sym, arith, true, ◌++◌, Bytes, length, subst}
use gtproxy.Utils.ByteStream.{ByteStream, done, to_le, read_uint}
use gtproxy.Utils.ByteStream.Reads.{Reads, At, advance, Reads-bind, Reads-map, read_uint-to_le}
use gtproxy.World.TileExtra.{serialize, serialize_typed, serialize_contents}
use gtproxy.World.TileExtra.Data.{
  Extra, monostate, door, sign, lock, seed, dice, provider, achievement, heart_monitor, bunny_egg,
  game_gen, xenonite, crystal, burglar, display_block, vending, solar, deco, sewing_machine,
  country_flag, battle_cage, weather_special, vip_entrance, geiger_charger,
}
use gtproxy.World.TileExtra.Kinds.{
  Junk, serialize_door, serialize_sign, serialize_seed, serialize_dice, serialize_achievement,
  serialize_heart_monitor, serialize_bunny_egg, serialize_game_gen, serialize_xenonite,
  serialize_crystal, serialize_burglar, serialize_display_block, serialize_vending, serialize_solar,
  serialize_deco, serialize_sewing_machine, serialize_country_flag, serialize_battle_cage,
  serialize_weather_special, serialize_geiger_charger,
}
use gtproxy.World.TileExtra.Parts.{Reads-lock, Reads-provider, Reads-solar, Reads-vip_entrance}
use gtproxy.World.TileExtra.Wire.{type_code, word_list, wire, Fits}

module _ (junk : Junk) (version foreground : ℕ) (pad : Bytes) (old : Extra) where
  abbrev ReadsBack : Extra → Type 0
  ReadsBack x =
      Fits junk foreground version pad x
      → Reads (serialize_contents junk version foreground (type_code x) old)
          (wire foreground version pad x) x

  -- Behind its type, each kind is read back from its bytes.
  Reads-contents : (x : Extra) → ReadsBack x
  unfolding serialize_contents serialize_door serialize_sign serialize_seed serialize_dice
      serialize_achievement serialize_heart_monitor serialize_bunny_egg serialize_game_gen
      serialize_xenonite serialize_crystal serialize_burglar serialize_display_block
      serialize_vending serialize_deco serialize_sewing_machine serialize_country_flag
      serialize_battle_cage serialize_weather_special serialize_geiger_charger
  Reads-contents monostate h = absurd h
  Reads-contents (door l u) (a, b) = str_then l _ _ _ a (u8_last u 0 (λ y. door l y) b)
  Reads-contents (sign l u) (a, b) = str_then l _ _ _ a (u32_last u 0 (λ y. sign l y) b)
  Reads-contents (lock u o xs) h = Reads-lock foreground version pad u o xs h
  Reads-contents (seed t c) (a, b) =
      u32_then t (junk 0) _ _ _ a (u8_last c (junk 1) (λ y. seed t y) b)
  Reads-contents (dice n) h = u8_last n (junk 0) (λ y. dice y) h
  Reads-contents (provider u v) h = Reads-provider junk foreground version pad u v h
  Reads-contents (achievement u v) (a, b) =
      u32_then u (junk 0) _ _ _ a (u8_last v (junk 1) (λ y. achievement u y) b)
  Reads-contents (heart_monitor u l) (a, b) =
      u32_then u (junk 0) _ _ _ a (str_last l (λ y. heart_monitor u y) b)
  Reads-contents (bunny_egg u) h = u32_last u (junk 0) (λ y. bunny_egg y) h
  Reads-contents (game_gen u) h = u8_last u (junk 0) (λ y. game_gen y) h
  Reads-contents (xenonite u v) (a, b) =
      u8_then u (junk 0) _ _ _ a (u32_last v (junk 1) (λ y. xenonite u y) b)
  Reads-contents (crystal u) h = str_last u (λ y. crystal y) h
  Reads-contents (burglar u v w) (a, b, c) =
      str_then u _ _ _ a (u32_then v (junk 0) _ _ _ b (u8_last w (junk 1) (λ y. burglar u v y) c))
  Reads-contents (display_block i) h = u32_last i (junk 0) (λ y. display_block y) h
  Reads-contents (vending i p) (a, b) =
      u32_then i (junk 0) _ _ _ a (u32_last p (junk 1) (λ y. vending i y) b)
  Reads-contents (solar u v xs) (a, b, c, d) =
      subst
        (λ (n : ℕ).
          Reads (serialize_solar junk) (to_le 1 u ++ (to_le 4 n ++ word_list xs)) (solar u n xs))
        (sym c) (Reads-solar junk u xs a (subst Word c b) d)
  Reads-contents (deco u v w) (a, b, c) =
      u8_then u (junk 0) _ _ _ a
        (u32_then v (junk 1) _ _ _ b (u8_last w (junk 2) (λ y. deco u v y) c))
  Reads-contents (sewing_machine u) h = u32_last u (junk 0) (λ y. sewing_machine y) h
  Reads-contents (country_flag f) h = str_last f (λ y. country_flag y) h
  Reads-contents (battle_cage l p q r) (a, b, c, d) = str_then l _ _ _ a (
      u32_then p (junk 0) _ _ _ b
        (u32_then q (junk 1) _ _ _ c (u32_last r (junk 2) (λ y. battle_cage l p q y) d)))
  Reads-contents (weather_special c) h = u32_last c (junk 0) (λ y. weather_special y) h
  Reads-contents (vip_entrance u o xs) (a, b, c, d) = Reads-vip_entrance junk u o xs a b c d
  Reads-contents (geiger_charger u) h = u32_last u (junk 0) (λ y. geiger_charger y) h

  type_code-Byte : (x : Extra) → Byte (type_code x)
  type_code-Byte x = ground arith

  -- Tile data of any kind is read back from its type and its bytes, if these are what stands at
  -- the read position, and exactly these are taken, whatever the object held before. The values
  -- fit their fields; a provider without its second word holds there what its memory held.
  pub serialize-wire :
      (background before : ℕ) (x : Extra)
      → Fits junk foreground version pad x
      → (s : ByteStream) (rest : Bytes)
      → At s ((to_le 1 (type_code x) ++ wire foreground version pad x) ++ rest)
      → serialize junk version foreground background (record { type = before; contents = old }) s
        ≡ done
            (record { type = type_code x; contents = x })
            (advance (length (to_le 1 (type_code x) ++ wire foreground version pad x)) s)
  unfolding serialize serialize_typed
  serialize-wire background before x h =
      Reads-bind (read_uint 1 0) _ (to_le 1 (type_code x)) (wire foreground version pad x)
        (true, type_code x) _ (read_uint-to_le 1 (type_code x) 0 (type_code-Byte x))
        (Reads-map (serialize_contents junk version foreground (type_code x) old)
          (λ c. record { type = type_code x; contents = c }) (wire foreground version pad x) x
          (Reads-contents x h))
