-- ===== src/World/TileExtra/Kinds.antt =====
-- world/tile_extra.cpp: one function for each struct.
use gtproxy.Prelude.{
  ℕ, zero, suc, Bool, not, ◌&&◌, ◌||◌, List, [], ◌∷◌, Bytes, ltb, ◌==◌, if◌then◌else◌,
}
use gtproxy.Utils.ByteStream.{Reader, ◌>>=◌, ◌>>◌, return, read_into, read_string_into, skip_bytes}
use gtproxy.World.TileExtra.Data.{
  Extra, door, sign, lock, seed, dice, provider, achievement, heart_monitor, bunny_egg, game_gen,
  xenonite, crystal, burglar, display_block, vending, solar, deco, sewing_machine, country_flag,
  battle_cage, weather_special, vip_entrance, geiger_charger,
}

-- What the words of a local struct hold that is not initialised, in the order of its fields. A read
-- that fails leaves them there.
abbrev pub Junk : Type 0
Junk = ℕ → ℕ

abbrev u8 : ℕ → Reader ℕ
u8 = read_into 1

abbrev pub u32 : ℕ → Reader ℕ
u32 = read_into 4

-- `read(std::string&)` of a `ByteStream<>`, whose LengthType is std::uint16_t.
abbrev pub str : Reader Bytes
str = read_string_into 2 []

-- The loop over a vector that `resize` has filled with zeros.
unfoldable pub words : ℕ → Reader (List ℕ)
words zero = return []
words (suc n) = do x ← u32 0; xs ← words n; return (x ∷ xs)

unfoldable pub serialize_door : Reader Extra
serialize_door = do label ← str; unk ← u8 0; return (door label unk)

unfoldable pub serialize_sign : Reader Extra
serialize_sign = do label ← str; unk ← u32 0; return (sign label unk)

-- The bytes behind the list of accesses; foreground 5814 has 16 more.
unfoldable pub skip_lock : ℕ → Reader (Unit {0})
skip_lock foreground = if foreground == 5814 then skip_bytes 8 >> skip_bytes 16 else skip_bytes 8

unfoldable pub serialize_lock : ℕ → Reader Extra
unfolding words skip_lock
serialize_lock foreground = do
  unk ← u8 0
  owner_id ← u32 0
  access_size ← u32 0
  accesses ← words access_size
  _ ← skip_lock foreground
  return (lock unk owner_id accesses)

unfoldable pub serialize_seed : Junk → Reader Extra
serialize_seed junk = do
  growth_time ← u32 (junk 0)
  fruit_count ← u8 (junk 1)
  return (seed growth_time fruit_count)

unfoldable pub serialize_dice : Junk → Reader Extra
serialize_dice junk = do number ← u8 (junk 0); return (dice number)

-- The second word is there for these foregrounds only; otherwise the field keeps what it held.
abbrev pub has_second : ℕ → ℕ → Bool
has_second foreground version =
    not (not (foreground == 5318) && (not (foreground == 10656) || ltb version 17))

unfoldable pub serialize_provider : Junk → ℕ → ℕ → Reader Extra
serialize_provider junk foreground version = do
  unk ← u32 (junk 0)
  if has_second foreground version
      then (do unk2 ← u32 (junk 1); return (provider unk unk2))
      else return (provider unk (junk 1))

unfoldable pub serialize_achievement : Junk → Reader Extra
serialize_achievement junk = do
  unk ← u32 (junk 0)
  unk2 ← u8 (junk 1)
  return (achievement unk unk2)

unfoldable pub serialize_heart_monitor : Junk → Reader Extra
serialize_heart_monitor junk = do unk ← u32 (junk 0); label ← str; return (heart_monitor unk label)

unfoldable pub serialize_bunny_egg : Junk → Reader Extra
serialize_bunny_egg junk = do unk ← u32 (junk 0); return (bunny_egg unk)

unfoldable pub serialize_game_gen : Junk → Reader Extra
serialize_game_gen junk = do unk ← u8 (junk 0); return (game_gen unk)

unfoldable pub serialize_xenonite : Junk → Reader Extra
serialize_xenonite junk = do unk ← u8 (junk 0); unk2 ← u32 (junk 1); return (xenonite unk unk2)

unfoldable pub serialize_crystal : Reader Extra
serialize_crystal = do unk ← str; return (crystal unk)

unfoldable pub serialize_burglar : Junk → Reader Extra
serialize_burglar junk = do
  unk ← str
  unk2 ← u32 (junk 0)
  unk3 ← u8 (junk 1)
  return (burglar unk unk2 unk3)

unfoldable pub serialize_display_block : Junk → Reader Extra
serialize_display_block junk = do item_id ← u32 (junk 0); return (display_block item_id)

unfoldable pub serialize_vending : Junk → Reader Extra
serialize_vending junk = do
  item_id ← u32 (junk 0)
  price ← u32 (junk 1)
  return (vending item_id price)

unfoldable pub serialize_solar : Junk → Reader Extra
unfolding words
serialize_solar junk = do
  unk ← u8 (junk 0)
  unk2 ← u32 (junk 1)
  unk3 ← words unk2
  return (solar unk unk2 unk3)

unfoldable pub serialize_deco : Junk → Reader Extra
serialize_deco junk = do
  unk ← u8 (junk 0)
  unk2 ← u32 (junk 1)
  unk3 ← u8 (junk 2)
  return (deco unk unk2 unk3)

unfoldable pub serialize_sewing_machine : Junk → Reader Extra
serialize_sewing_machine junk = do unk ← u32 (junk 0); return (sewing_machine unk)

unfoldable pub serialize_country_flag : Reader Extra
serialize_country_flag = do flag ← str; return (country_flag flag)

unfoldable pub serialize_battle_cage : Junk → Reader Extra
serialize_battle_cage junk = do
  label ← str
  pet1 ← u32 (junk 0)
  pet2 ← u32 (junk 1)
  pet3 ← u32 (junk 2)
  return (battle_cage label pet1 pet2 pet3)

unfoldable pub serialize_weather_special : Junk → Reader Extra
serialize_weather_special junk = do color ← u32 (junk 0); return (weather_special color)

unfoldable pub serialize_vip_entrance : Junk → Reader Extra
unfolding words
serialize_vip_entrance junk = do
  unk ← u8 (junk 0)
  owner_id ← u32 (junk 1)
  access_size ← u32 0
  accesses ← words access_size
  return (vip_entrance unk owner_id accesses)

unfoldable pub serialize_geiger_charger : Junk → Reader Extra
serialize_geiger_charger junk = do unk ← u32 (junk 0); return (geiger_charger unk)
