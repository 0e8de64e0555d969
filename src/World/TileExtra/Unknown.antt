-- ===== src/World/TileExtra/Unknown.antt =====
-- world/tile_extra.cpp: `handle_unknown_type`, which passes over the data of the types that have no
-- struct.
use gtproxy.Prelude.{ℕ, ◌*◌, ◌%◌, ◌^◌, ◌==◌, if◌then◌else◌}
use gtproxy.Utils.ByteStream.{Reader, ◌>>=◌, ◌>>◌, return, skip_bytes}
use gtproxy.World.TileExtra.Kinds.{Junk, u32, str}

-- `bs.read(count); bs.skip(count * size);`, the product in 32 bits.
abbrev skip_counted : Junk → ℕ → Reader (Unit {0})
skip_counted junk size = do count ← u32 (junk 0); skip_bytes (count * size % 2 ^ 32)

-- The cases 14 to 56.
unfoldable skip_low : Junk → ℕ → Reader (Unit {0}) → Reader (Unit {0})
skip_low junk type other =
    if type == 14
    then str >> skip_bytes 23
    else if type == 19
    then skip_bytes 18
    else if type == 27
    then skip_bytes 4
    else if type == 30
    then skip_bytes 5
    else if type == 35
    then skip_bytes 4 >> (str >> return tt)
    else if type == 39
    then skip_bytes 4
    else if type == 42
    then skip_bytes 21
    else if type == 43
    then skip_bytes 16
    else if type == 48
    then str >> skip_bytes 26
    else if type == 49
    then skip_bytes 9
    else if type == 55
    then skip_counted junk 4 >> skip_bytes 16
    else if type == 56
    then str >> skip_bytes 4
    else other

-- The cases 58 to 81. Types 58 and 74, and every type not named, have no data.
unfoldable skip_high : Junk → ℕ → Reader (Unit {0})
skip_high junk type =
    if type == 58
    then return tt
    else if type == 61
    then skip_bytes 35
    else if type == 62
    then skip_bytes 14
    else if type == 63
    then skip_counted junk 15 >> skip_bytes 8
    else if type == 65
    then skip_bytes 17
    else if type == 66
    then skip_bytes 1
    else if type == 69
    then skip_bytes 16
    else if type == 71
    then skip_bytes 44
    else if type == 72
    then skip_bytes 12
    else if type == 73
    then skip_bytes 4
    else if type == 74
    then return tt
    else if type == 75
    then skip_bytes 104 >> (skip_bytes 104 >> skip_bytes 104)
    else if type == 77
    then skip_bytes 4 >> skip_counted junk 4
    else if type == 81
    then skip_bytes 8
    else return tt

unfoldable pub handle_unknown_type : Junk → ℕ → Reader (Unit {0})
unfolding skip_low skip_high
handle_unknown_type junk type = skip_low junk type (skip_high junk type)
