-- ===== src/World/TileExtra/Wire.antt =====
-- The bytes that stand for each kind of tile data, as the reader expects them.
use gtproxy.Utils.ByteStream.Fields.{Byte, Word, Text}
use gtproxy.Prelude.{ℕ, ◌≡◌, false, List, [], ◌∷◌, ◌++◌, Bytes, ◌==◌, if◌then◌else◌, length}
use gtproxy.Utils.ByteStream.{to_le}
use gtproxy.Utils.ByteStream.Reads.{prefixed}
use gtproxy.World.TileExtra.Data.{
  Extra, monostate, door, sign, lock, seed, dice, provider, achievement, heart_monitor, bunny_egg,
  game_gen, xenonite, crystal, burglar, display_block, vending, solar, deco, sewing_machine,
  country_flag, battle_cage, weather_special, vip_entrance, geiger_charger,
}
use gtproxy.World.TileExtra.Kinds.{Junk, has_second}

-- `enum class Type`, at the kinds that have a struct.
abbrev pub type_code : Extra → ℕ
type_code monostate = 0
type_code (door label unk) = 1
type_code (sign label unk) = 2
type_code (lock unk owner_id accesses) = 3
type_code (seed growth_time fruit_count) = 4
type_code (dice number) = 8
type_code (provider unk unk2) = 9
type_code (achievement unk unk2) = 10
type_code (heart_monitor unk label) = 11
type_code (bunny_egg unk) = 15
type_code (game_gen unk) = 17
type_code (xenonite unk unk2) = 18
type_code (crystal unk) = 20
type_code (burglar unk unk2 unk3) = 21
type_code (display_block item_id) = 23
type_code (vending item_id price) = 24
type_code (solar unk unk2 unk3) = 25
type_code (deco unk unk2 unk3) = 28
type_code (sewing_machine unk) = 32
type_code (country_flag flag) = 33
type_code (battle_cage label pet1 pet2 pet3) = 36
type_code (weather_special color) = 40
type_code (vip_entrance unk owner_id accesses) = 44
type_code (geiger_charger unk) = 57

abbrev pub word_list : List ℕ → Bytes
word_list [] = []
word_list (x ∷ xs) = to_le 4 x ++ word_list xs

abbrev pub counted : List ℕ → Bytes
counted xs = to_le 4 (length xs) ++ word_list xs

-- `pad` is what stands behind the accesses of a lock.
abbrev pub wire : ℕ → ℕ → Bytes → Extra → Bytes
wire foreground version pad monostate = []
wire foreground version pad (door label unk) = prefixed 2 label ++ to_le 1 unk
wire foreground version pad (sign label unk) = prefixed 2 label ++ to_le 4 unk
wire foreground version pad (lock unk owner_id accesses) =
    to_le 1 unk ++ (to_le 4 owner_id ++ (to_le 4 (length accesses) ++ (word_list accesses ++ pad)))
wire foreground version pad (seed growth_time fruit_count) =
    to_le 4 growth_time ++ to_le 1 fruit_count
wire foreground version pad (dice number) = to_le 1 number
wire foreground version pad (provider unk unk2) =
    to_le 4 unk ++ (if has_second foreground version then to_le 4 unk2 else [])
wire foreground version pad (achievement unk unk2) = to_le 4 unk ++ to_le 1 unk2
wire foreground version pad (heart_monitor unk label) = to_le 4 unk ++ prefixed 2 label
wire foreground version pad (bunny_egg unk) = to_le 4 unk
wire foreground version pad (game_gen unk) = to_le 1 unk
wire foreground version pad (xenonite unk unk2) = to_le 1 unk ++ to_le 4 unk2
wire foreground version pad (crystal unk) = prefixed 2 unk
wire foreground version pad (burglar unk unk2 unk3) =
    prefixed 2 unk ++ (to_le 4 unk2 ++ to_le 1 unk3)
wire foreground version pad (display_block item_id) = to_le 4 item_id
wire foreground version pad (vending item_id price) = to_le 4 item_id ++ to_le 4 price
wire foreground version pad (solar unk unk2 unk3) = to_le 1 unk ++ (to_le 4 unk2 ++ word_list unk3)
wire foreground version pad (deco unk unk2 unk3) = to_le 1 unk ++ (to_le 4 unk2 ++ to_le 1 unk3)
wire foreground version pad (sewing_machine unk) = to_le 4 unk
wire foreground version pad (country_flag flag) = prefixed 2 flag
wire foreground version pad (battle_cage label pet1 pet2 pet3) =
    prefixed 2 label ++ (to_le 4 pet1 ++ (to_le 4 pet2 ++ to_le 4 pet3))
wire foreground version pad (weather_special color) = to_le 4 color
wire foreground version pad (vip_entrance unk owner_id accesses) =
    to_le 1 unk ++ (to_le 4 owner_id ++ counted accesses)
wire foreground version pad (geiger_charger unk) = to_le 4 unk

abbrev pub AllWord : List ℕ → Type 0
AllWord [] = Unit
AllWord (x ∷ xs) = Word x × AllWord xs

abbrev pub pad_size : ℕ → ℕ
pad_size foreground = if foreground == 5814 then 24 else 8

-- The values that fit the fields. A provider with no second word holds what its memory held.
abbrev pub Fits : Junk → ℕ → ℕ → Bytes → Extra → Type 0
Fits junk foreground version pad monostate = ⊥
Fits junk foreground version pad (door label unk) = Text label × Byte unk
Fits junk foreground version pad (sign label unk) = Text label × Word unk
Fits junk foreground version pad (lock unk owner_id accesses) =
    Byte unk
    × Word owner_id
    × Word (length accesses)
    × AllWord accesses
    × (length pad ≡ pad_size foreground)
Fits junk foreground version pad (seed growth_time fruit_count) =
    Word growth_time × Byte fruit_count
Fits junk foreground version pad (dice number) = Byte number
Fits junk foreground version pad (provider unk unk2) =
    Word unk × Word unk2 × (has_second foreground version ≡ false → unk2 ≡ junk 1)
Fits junk foreground version pad (achievement unk unk2) = Word unk × Byte unk2
Fits junk foreground version pad (heart_monitor unk label) = Word unk × Text label
Fits junk foreground version pad (bunny_egg unk) = Word unk
Fits junk foreground version pad (game_gen unk) = Byte unk
Fits junk foreground version pad (xenonite unk unk2) = Byte unk × Word unk2
Fits junk foreground version pad (crystal unk) = Text unk
Fits junk foreground version pad (burglar unk unk2 unk3) = Text unk × Word unk2 × Byte unk3
Fits junk foreground version pad (display_block item_id) = Word item_id
Fits junk foreground version pad (vending item_id price) = Word item_id × Word price
Fits junk foreground version pad (solar unk unk2 unk3) =
    Byte unk × Word unk2 × (unk2 ≡ length unk3) × AllWord unk3
Fits junk foreground version pad (deco unk unk2 unk3) = Byte unk × Word unk2 × Byte unk3
Fits junk foreground version pad (sewing_machine unk) = Word unk
Fits junk foreground version pad (country_flag flag) = Text flag
Fits junk foreground version pad (battle_cage label pet1 pet2 pet3) =
    Text label × Word pet1 × Word pet2 × Word pet3
Fits junk foreground version pad (weather_special color) = Word color
Fits junk foreground version pad (vip_entrance unk owner_id accesses) =
    Byte unk × Word owner_id × Word (length accesses) × AllWord accesses
Fits junk foreground version pad (geiger_charger unk) = Word unk
