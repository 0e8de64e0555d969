-- ===== src/Tests/Items.antt =====
-- item_database.cpp on a small items.dat, and a tile of one of its items.
use gtproxy.Prelude.{List, inr, ◌≡◌, refl, arith, true, [], ◌∷◌, ◌++◌, length, bytes, replicate}
use gtproxy.Utils.ByteStream.{ByteStream, get_data, get_size, done, fault, to_le, of_span}
use gtproxy.Utils.ByteStream.Reads.{advance}
use gtproxy.Item.{ItemDatabase, parse, item_types_of}
use gtproxy.World.TileExtra.Data.{door}
use gtproxy.World.TileExtra.Kinds.{Junk}
use gtproxy.World.Tile
use gtproxy.World.Tile.{Tile, new_tile, has_flag}
use gtproxy.World.Tile.Wire.{Record, TileFits, tile_bytes}
use gtproxy.Item.Info.{ItemInfo}
use gtproxy.Item.Cipher.{decrypt_item_name}
use gtproxy.Item.Wire.{ItemFits}
use gtproxy.Item.Ended.{blank_item}
use gtproxy.Item.Database.{DatabaseFits, database_bytes, parse-database_bytes}
use gtproxy.Item.Malformed.{header_bytes, parse-length, parse-header_bytes}
use gtproxy.Item.Lookup.{type_at, serialize-parse, serialize_unknown, with_database, tile_words}

abbrev dirt : ItemInfo
dirt = record blank_item {
  kind = record { item_id = 0; flags = 1; item_type = 13; material = 0; item_name = bytes "Dirt" };
  unk_9 = 7;
}

abbrev no_items : ItemDatabase
no_items = record { version = 0; count = 0; items = [] }

abbrev small : ItemDatabase
small = record { version = 24; count = 1; items = dirt ∷ [] }

dirt-ItemFits : ItemFits 24 dirt
dirt-ItemFits = record {
  kind_fits = omega arith;
  texture_fits = omega arith;
  use_data_fits = omega arith;
  pet_fits = omega arith;
  growth_fits = omega arith;
  effects_fits = omega arith;
  reach_fits = omega arith;
  chair_fits = omega arith;
  renderer_fits = omega arith;
  unk_9_fits = omega arith;
  no_unk_9 = λ p. cc;
}

small-DatabaseFits : DatabaseFits small
small-DatabaseFits = record {
  version_half = omega arith;
  count_word = omega arith;
  counted = refl;
  items_fit = (dirt-ItemFits, tt);
}

parse-database_bytes_example :
    parse (database_bytes small ++ (1 ∷ [])) no_items
    ≡ done
        (true, small)
        (advance (length (database_bytes small)) (of_span (database_bytes small ++ (1 ∷ []))))
unfolding to_le decrypt_item_name
parse-database_bytes_example =
    parse-database_bytes small no_items (1 ∷ []) small-DatabaseFits (omega arith)

parse-header_bytes_example :
    parse (header_bytes 24 3) no_items
    ≡ done
        (true, record { version = 24; count = 3; items = replicate 3 blank_item })
        (advance 6 (of_span (header_bytes 24 3)))
parse-header_bytes_example = parse-header_bytes 24 3 no_items (omega arith) (omega arith)

-- The item 3: the key from its fourth byte on.
dirt_decrypted : decrypt_item_name (124 ∷ 80 ∷ 64 ∷ 50 ∷ []) 3 ≡ bytes "Dirt"
unfolding decrypt_item_name
dirt_decrypted = refl

parse-length_example :
    (xs : List ItemInfo) × (t : ByteStream) × (parse (header_bytes 24 3 ++ (7 ∷ 0 ∷ [])) no_items
      ≡ done (true, record { version = 24; count = 3; items = xs }) t)
    × (length xs ≡ 3)
unfolding to_le
parse-length_example =
    parse-length 24 3 (omega arith) (omega arith) (7 ∷ 0 ∷ []) no_items (omega arith)

abbrev zeros : Junk
zeros i = 0

-- Dirt is of the type of doors here, so that data follows its tile.
abbrev door_tile : Record
door_tile = record {
  tile = record {
    foreground = 0;
    background = 14;
    parent_tile = 0;
    flag = 0;
    lock_parent_tile = 0;
    extra = record { type = 1; contents = door (bytes "EXIT") 1 };
  };
  present = true;
  pad = [];
}

door_tile-TileFits : TileFits (type_at small.items) zeros 20 new_tile door_tile
unfolding has_flag
door_tile-TileFits = record {
  fg_half = omega arith;
  bg_half = omega arith;
  parent_half = omega arith;
  flag_half = omega arith;
  lock_half = omega arith;
  not_locked = λ p. refl;
  carries = inr (refl, (13, refl, refl));
  with_data = λ p. (refl, (omega arith, omega arith));
  without_data = λ p. cc;
}

serialize-parse_example :
    with_database (parse (database_bytes small ++ []) no_items) (λ after.
      Tile.serialize
        (item_types_of after)
        zeros
        20
        new_tile
        (of_span (tile_bytes 20 door_tile ++ [])))
    ≡ done door_tile.tile
        (advance (length (tile_bytes 20 door_tile)) (of_span (tile_bytes 20 door_tile ++ [])))
unfolding of_span to_le has_flag get_data get_size decrypt_item_name
serialize-parse_example =
    serialize-parse zeros 20 new_tile door_tile small no_items small-DatabaseFits (omega arith)
      door_tile-TileFits (of_span (tile_bytes 20 door_tile ++ [])) [] (refl, refl, omega arith)

-- The database has one item.
abbrev unknown_tile : Tile
unknown_tile = record new_tile { foreground = 9 }

serialize_unknown_example :
    Tile.serialize (item_types_of small) zeros 20 new_tile (of_span (tile_words unknown_tile ++ []))
    ≡ fault
unfolding of_span to_le has_flag get_data get_size
serialize_unknown_example =
    serialize_unknown small zeros 20 new_tile unknown_tile (omega arith) (omega arith) (omega arith)
      (omega arith) refl refl (omega arith) (of_span (tile_words unknown_tile ++ [])) []
      (refl, refl, omega arith)
