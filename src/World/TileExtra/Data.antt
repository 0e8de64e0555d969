-- ===== src/World/TileExtra/Data.antt =====
-- world/tile_extra.hpp: the structs that `Variant` holds, fields in their order.
use gtproxy.Prelude.{ℕ, List, Bytes}

pub data Extra : Type 0 where
  monostate : Extra
  door : (label : Bytes) (unk : ℕ) → Extra
  sign : (label : Bytes) (unk : ℕ) → Extra
  lock : (unk owner_id : ℕ) (accesses : List ℕ) → Extra
  seed : (growth_time fruit_count : ℕ) → Extra
  dice : (number : ℕ) → Extra
  provider : (unk unk2 : ℕ) → Extra
  achievement : (unk unk2 : ℕ) → Extra
  heart_monitor : (unk : ℕ) (label : Bytes) → Extra
  bunny_egg : (unk : ℕ) → Extra
  game_gen : (unk : ℕ) → Extra
  xenonite : (unk unk2 : ℕ) → Extra
  crystal : (unk : Bytes) → Extra
  burglar : (unk : Bytes) (unk2 unk3 : ℕ) → Extra
  display_block : (item_id : ℕ) → Extra
  vending : (item_id price : ℕ) → Extra
  solar : (unk unk2 : ℕ) (unk3 : List ℕ) → Extra
  deco : (unk unk2 unk3 : ℕ) → Extra
  sewing_machine : (unk : ℕ) → Extra
  country_flag : (flag : Bytes) → Extra
  battle_cage : (label : Bytes) (pet1 pet2 pet3 : ℕ) → Extra
  weather_special : (color : ℕ) → Extra
  vip_entrance : (unk owner_id : ℕ) (accesses : List ℕ) → Extra
  geiger_charger : (unk : ℕ) → Extra
