-- ===== src/World/TileExtra.antt =====
-- world/tile_extra.hpp and tile_extra.cpp: the data behind a tile, by its type.
pub mod Data
pub mod Kinds
pub mod Unknown
pub mod Wire
pub mod Parts
pub mod Reading
use gtproxy.Prelude.{ℕ, Bool, true, false, ◌==◌, if◌then◌else◌}
use gtproxy.Utils.ByteStream.{Reader, ◌>>=◌, ◌>>◌, return, read_uint}
use Data.{Extra, monostate}
use Kinds.{
  Junk, serialize_door, serialize_sign, serialize_lock, serialize_seed, serialize_dice,
  serialize_provider, serialize_achievement, serialize_heart_monitor, serialize_bunny_egg,
  serialize_game_gen, serialize_xenonite, serialize_crystal, serialize_burglar,
  serialize_display_block, serialize_vending, serialize_solar, serialize_deco,
  serialize_sewing_machine, serialize_country_flag, serialize_battle_cage,
  serialize_weather_special, serialize_vip_entrance, serialize_geiger_charger,
}
use Unknown.{handle_unknown_type}

-- `TileExtra`: `type_` as the byte that was cast to it, and `data_`.
pub record TileExtra : Type 0 where
  pub type : ℕ
  pub contents : Extra

abbrev pub no_extra : TileExtra
no_extra = record { type = 0; contents = monostate }

abbrev keep : Extra → Reader (Unit {0}) → Reader Extra
keep contents skipping = do _ ← skipping; return contents

-- The `switch` of `TileExtra::serialize`, first half.
unfoldable serialize_common : Junk → ℕ → ℕ → ℕ → Extra → Reader Extra → Reader Extra
serialize_common junk version foreground type old other =
    if type == 1
    then serialize_door
    else if type == 2
    then serialize_sign
    else if type == 3
    then serialize_lock foreground
    else if type == 4
    then serialize_seed junk
    else if type == 8
    then serialize_dice junk
    else if type == 9
    then serialize_provider junk foreground version
    else if type == 10
    then serialize_achievement junk
    else if type == 11
    then serialize_heart_monitor junk
    else if type == 15
    then serialize_bunny_egg junk
    else if type == 17
    then serialize_game_gen junk
    else if type == 18
    then serialize_xenonite junk
    else if type == 20
    then serialize_crystal
    else other

-- Its second half, with the `default` branch, which leaves `data_` alone.
unfoldable serialize_rare : Junk → ℕ → Extra → Reader Extra
serialize_rare junk type old =
    if type == 21
    then serialize_burglar junk
    else if type == 23
    then serialize_display_block junk
    else if type == 24
    then serialize_vending junk
    else if type == 25
    then serialize_solar junk
    else if type == 28
    then serialize_deco junk
    else if type == 32
    then serialize_sewing_machine junk
    else if type == 33
    then serialize_country_flag
    else if type == 36
    then serialize_battle_cage junk
    else if type == 40
    then serialize_weather_special junk
    else if type == 44
    then serialize_vip_entrance junk
    else if type == 57
    then serialize_geiger_charger junk
    else keep old (handle_unknown_type junk type)

unfoldable pub serialize_contents : Junk → ℕ → ℕ → ℕ → Extra → Reader Extra
unfolding serialize_common serialize_rare
serialize_contents junk version foreground type old =
    serialize_common junk version foreground type old (serialize_rare junk type old)

-- `TileExtra::serialize` behind the read of the type.
unfoldable pub serialize_typed : Junk → ℕ → ℕ → TileExtra → Bool → ℕ → Reader TileExtra
unfolding serialize_contents
serialize_typed junk version foreground extra false type = return extra
serialize_typed junk version foreground extra true type = do
  contents ← serialize_contents junk version foreground type extra.contents
  return (record { type = type; contents = contents })

-- `TileExtra::serialize` on the object `extra`; `background` is not used.
unfoldable pub serialize : Junk → ℕ → ℕ → ℕ → TileExtra → Reader TileExtra
unfolding serialize_typed
serialize junk version foreground background extra = do
  (found, type) ← read_uint 1 0
  serialize_typed junk version foreground extra found type
