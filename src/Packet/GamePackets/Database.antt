-- ===== src/Packet/GamePackets/Database.antt =====
-- packet/game/item_database.hpp: what SendItemDatabaseData::read can give.
use gtproxy.Prelude.{
  take-replicate, if◌then◌else◌, ℕ, ◌<◌, ◌≡◌, ◌∙◌, arith, Bytes, [], Bool, true, false, none, some,
  ◌==◌, replicate,
}
use gtproxy.Utils.ByteStream.{resize}
use gtproxy.Utils.TextParse.{is_empty}
use gtproxy.Utils.Zlib.{Inflate, decompress_zlib}
use gtproxy.Utils.Zlib.Sizes.{decompress_zlib_sized}
use gtproxy.Packet.Payload.{GamePayload}
use gtproxy.Packet.GamePackets.{send_item_database_data, read_item_database_data}

-- The tests that `read` makes before it answers.
answer :
    (none_left no_size done : Bool) (x items_dat : Bytes)
    → (if none_left
        then none
        else if no_size
        then none
        else if done
        then some (send_item_database_data x)
        else none)
      ≡ some (send_item_database_data items_dat)
    → (no_size ≡ false) × (done ≡ true) × (x ≡ items_dat)
answer none_left no_size done x items_dat e = ground arith

-- If SendItemDatabaseData::read succeeds, the item data it read is as many zeros as the packet says the
-- data is long, whatever inflate does.
pub read_item_database_data_zeros :
    (inflate : Inflate) (p : GamePayload) (items_dat : Bytes)
    → read_item_database_data inflate p ≡ some (send_item_database_data items_dat)
    → items_dat ≡ replicate p.packet.int_data 0
unfolding read_item_database_data resize
read_item_database_data_zeros inflate p items_dat e =
    let n = p.packet.int_data in
    let result = decompress_zlib inflate p.extra [] n in
    let tests = answer (is_empty p.extra) (n == 0) result.0 result.1 items_dat e in
    let size : 0 < n = ground (arith, tests.0) in
    decompress_zlib_sized inflate p.extra [] items_dat n size (λ i. (tests.1 i, tests.2 i))
    ∙ take-replicate {A = ℕ} n 0
