-- ===== src/Core/WorldHandler/Runs.antt =====
-- What holds of the world after any sequence of packets.
use gtproxy.Prelude.{
  ◌≡◌, refl, Bool, true, false, List, [], ◌∷◌, Bytes, Option, none, some, if◌then◌else◌,
}
use gtproxy.Prelude.Int.{ℤ}
use gtproxy.Utils.TextParse.{is_empty}
use gtproxy.Utils.ByteStream.{
  ByteStream, Outcome, done, fault, Reader, read_into, skip_bytes, read_string_into, of_span,
}
use gtproxy.World.Tile
use gtproxy.World.Tile.{ItemTypes, new_tile}
use gtproxy.World.TileMap
use gtproxy.World.ObjectMap
use gtproxy.World.TileExtra.Kinds.{Junk}
use gtproxy.World.State.{
  World, Player, new_world, read_world, read_named, get_local_player, get_player, find, is_negative,
}
use gtproxy.World.State
use gtproxy.World.State.Registry.{Inv, clear-Inv, add_player-Inv, remove_player-Inv}
use gtproxy.Core.WorldHandler.{
  Direction, client_bound, server_bound, Packet, join_request, on_spawn, on_remove, send_map_data,
  send_tile_update_data, tile_change_request, item_change_object, from_on_spawn, handle, handle_all,
  result, checked,
}

abbrev OnDone {ℓ} : {A : Type ℓ} → (A → Type 0) → Outcome A → Type 0
OnDone P (done a t) = P a
OnDone P fault = Unit

OnDone-elim {ℓ κ} :
    {A : Type ℓ} {B : Type κ} (P : B → Type 0) (o : Outcome A) (f : A → Reader B)
    → ((a : A) (t : ByteStream) → OnDone P (f a t))
    → OnDone P (elim o [ done a t ↦ f a t | fault ↦ fault ])
OnDone-elim P (done a t) f h = h a t
OnDone-elim P fault f h = tt

-- The invariant, where there is a world.
abbrev pub Holds : Option World → Type 0
Holds none = Unit
Holds (some w) = Inv w

abbrev SamePlayers : World → World → Type 0
SamePlayers w v = (v.players ≡ w.players) × (v.local_net_id ≡ w.local_net_id)

module _ (item_types : ItemTypes) (junk : Junk) (w : World) where
  read_world-SamePlayers :
      (s : ByteStream) → OnDone (SamePlayers w) (read_world item_types junk w s)
  unfolding read_world
  read_world-SamePlayers s = OnDone-elim (SamePlayers w) (read_into 2 w.version s) _ (λ version t.
      OnDone-elim (SamePlayers w) (skip_bytes 4 t) (λ _. read_named item_types junk w version)
        (λ _ t. OnDone-elim (SamePlayers w) (read_string_into 2 w.name t) _ (λ name t.
          OnDone-elim (SamePlayers w) (TileMap.serialize item_types junk version w.tile_map t) _
            (λ m t.
              OnDone-elim (SamePlayers w) (ObjectMap.serialize w.object_map t) _
                (λ o t. (refl, refl))))))

  -- A world with the same players satisfies the same invariant.
  moved : (v : World) → SamePlayers w v → Inv w → Inv v
  moved v (p, l) i = record { keyed = rw p i.keyed; local_known = rw (p, l) i.local_known }

  result-Inv : (o : Outcome World) → OnDone (SamePlayers w) o → Inv w → Holds (result o)
  result-Inv (done u t) same i = moved u same i
  result-Inv fault same i = tt

  map_data-Inv :
      (extra : Bytes)
      → Inv w
      → (b : Bool) → Holds (if b then some w else result (State.serialize item_types junk w extra))
  unfolding State.serialize
  map_data-Inv extra i true = i
  map_data-Inv extra i false =
      result-Inv (read_world item_types junk w (of_span extra))
        (read_world-SamePlayers (of_span extra)) i

  same_world :
      {A : Type 0} (o : Outcome A) → Inv w → (b : Bool) → Holds (if b then some w else checked o w)
  same_world o i true = i
  same_world (done a t) i false = i
  same_world fault i false = tt

module _ (item_types : ItemTypes) (junk : Junk) (via_float : ℤ → ℤ) where
  handle-Inv :
      (direction : Direction) (pkt : Packet) (w : World)
      → Inv w
      → Holds (handle item_types junk via_float direction pkt w)
  unfolding handle
  handle-Inv server_bound join_request w i = clear-Inv w
  handle-Inv client_bound (on_spawn pkt) w i = add_player-Inv (from_on_spawn via_float pkt) w i
  handle-Inv client_bound (on_remove pkt) w i = remove_player-Inv pkt.net_id w i
  handle-Inv client_bound (send_map_data extra) w i =
      map_data-Inv item_types junk w extra i (is_empty extra)
  handle-Inv client_bound (send_tile_update_data extra) w i =
      same_world item_types junk w
        (Tile.serialize item_types junk w.version new_tile (of_span extra)) i (is_empty extra)
  handle-Inv client_bound (tile_change_request pkt) w i = record {
    keyed = i.keyed;
    local_known = i.local_known;
  }
  handle-Inv server_bound (tile_change_request pkt) w i = record {
    keyed = i.keyed;
    local_known = i.local_known;
  }
  handle-Inv client_bound (item_change_object pkt) w i = record {
    keyed = i.keyed;
    local_known = i.local_known;
  }
  handle-Inv client_bound join_request w i = i
  handle-Inv server_bound (on_spawn pkt) w i = i
  handle-Inv server_bound (on_remove pkt) w i = i
  handle-Inv server_bound (send_map_data extra) w i = i
  handle-Inv server_bound (send_tile_update_data extra) w i = i
  handle-Inv server_bound (item_change_object pkt) w i = i

  handle_all_from :
      (packets : List (Direction × Packet)) (o : Option World)
      → Holds o
      → ((w : World) → Inv w → Holds (handle_all item_types junk via_float packets w))
      → Holds (elim o [ none ↦ none | some v ↦ handle_all item_types junk via_float packets v ])
  handle_all_from packets none h next = tt
  handle_all_from packets (some w) h next = next w h

  -- After any packets, in either direction, that are handled without a fault, each player stands
  -- under its own net id and once, and the local net id is -1 or that of a player of the map, if
  -- this is so before them.
  pub handle_all-Inv :
      (packets : List (Direction × Packet)) (w : World)
      → Inv w
      → Holds (handle_all item_types junk via_float packets w)
  unfolding handle_all
  handle_all-Inv [] w i = i
  handle_all-Inv ((direction, pkt) ∷ packets) w i =
      handle_all_from packets (handle item_types junk via_float direction pkt w)
        (handle-Inv direction pkt w i) (handle_all-Inv packets)
