-- ===== src/Core/WorldHandler/Objects.antt =====
-- The handlers of ItemChangeObject and TileChangeRequest on the objects and the tiles.
use gtproxy.Prelude.{
  ℕ, zero, suc, ◌%◌, ◌^◌, ◌≤◌, ◌≡◌, refl, ap, arith, List, [], ◌∷◌, ◌==◌, if◌then◌else◌, length,
  get_elem?,
}
use gtproxy.Packet.Types.{GameUpdatePacket}
use gtproxy.Packet.WorldPackets.{TileChangeRequest, read_item_change_object}
use gtproxy.Event.{erase_if}
use gtproxy.World.Tile.{Tile}
use gtproxy.World.TileMap.{TileMap}
use gtproxy.World.ObjectMap.{Object, ObjectMap}
use gtproxy.Core.WorldHandler.{
  punch, punch_at, tile_index, change_tile, fist, take_objects, change_object,
}
use mathlib.Core.Option

-- The objects, in their order, that have another id.
abbrev pub without : ℕ → List Object → List Object
without id os = erase_if (λ (o : Object). o.object_id == id) os

take_objects_lem : (id : ℕ) (os : List Object) → take_objects id os ≡ without id os
unfolding take_objects erase_if
take_objects_lem id [] = refl
take_objects_lem id (o ∷ os) =
    ap (λ (rest : List Object). if o.object_id == id then rest else o ∷ rest)
      (take_objects_lem id os)

-- Whatever kind of change an ItemChangeObject packet announces, the objects with its id (the lower
-- 16 bits of it) are taken away, the others stay as they were and in their order, and so does the
-- drop counter: the kinds -1 and -3 are compared with a member of eight bits without a sign, which
-- is never equal to them.
pub change_object-removes :
    (p : GameUpdatePacket) (m : ObjectMap)
    → change_object (read_item_change_object p) m
      ≡ record { drop_id = m.drop_id; objects = without (p.item_net_id % 2 ^ 16) m.objects }
unfolding change_object read_item_change_object
change_object-removes p m =
    ap (λ (os : List Object). record m { objects = os })
      (take_objects_lem (p.item_net_id % 2 ^ 16) m.objects)

get_elem?-punch_at :
    (i j : ℕ) (ts : List Tile)
    → get_elem? (punch_at i ts) j
      ≡ (if i == j then Option.map punch (get_elem? ts j) else get_elem? ts j)
unfolding punch_at
get_elem?-punch_at i j [] = ground arith
get_elem?-punch_at zero zero (t ∷ ts) = refl
get_elem?-punch_at zero (suc j) (t ∷ ts) = ground arith
get_elem?-punch_at (suc i) zero (t ∷ ts) = ground arith
get_elem?-punch_at (suc i) (suc j) (t ∷ ts) = ground (arith, get_elem?-punch_at i j ts)

get_elem?-over :
    (i : ℕ) (ts : List Tile) → length ts ≤ i → Option.map punch (get_elem? ts i) ≡ get_elem? ts i
get_elem?-over i [] h = refl
get_elem?-over zero (t ∷ ts) h = absurd (omega arith)
get_elem?-over (suc i) (t ∷ ts) h = get_elem?-over i ts (omega arith)

length-punch_at : (i : ℕ) (ts : List Tile) → length (punch_at i ts) ≡ length ts
unfolding punch_at
length-punch_at i [] = refl
length-punch_at zero (t ∷ ts) = refl
length-punch_at (suc i) (t ∷ ts) = ap suc (length-punch_at i ts)

-- A TileChangeRequest changes at most the tile at its index, which loses its foreground, or its
-- background if it has none, and this only for the fist. The number of tiles stays, and an
-- index outside changes nothing.
change_tile_lem :
    (pkt : TileChangeRequest) (m : TileMap) (j : ℕ)
    → let after = change_tile pkt m in
      (length after.tiles ≡ length m.tiles)
      × (get_elem? after.tiles j ≡ (
          if pkt.item_id == fist
          then (if tile_index pkt m == j
              then Option.map punch (get_elem? m.tiles j)
              else get_elem? m.tiles j)
          else get_elem? m.tiles j))
unfolding change_tile
change_tile_lem pkt m j = (
  ground (arith, length-punch_at (tile_index pkt m) m.tiles),
  ground (
    arith,
    get_elem?-punch_at (tile_index pkt m) j m.tiles,
    get_elem?-over (tile_index pkt m) m.tiles,
  ),
)
