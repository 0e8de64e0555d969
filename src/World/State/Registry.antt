-- ===== src/World/State/Registry.antt =====
-- The map of players: what a lookup gives after each operation, and which player is the local one.
use gtproxy.Prelude.{
  Bool, true, false, ◌≡◌, refl, arith, List, [], ◌∷◌, none, some, if◌then◌else◌, ◌⊎◌, inl, inr,
  Bool-cases,
}
use gtproxy.Prelude.Int.{ℤ, int_eq, int_eq_iff}
use gtproxy.World.State.{
  Player, World, new_world, minus_one, assign, erase, find, add_player, remove_player, clear,
  get_player,
}

find-assign :
    (key j : ℤ) (p : Player) (ps : List (ℤ × Player))
    → find j (assign key p ps) ≡ (if int_eq key j then some p else find j ps)
unfolding find assign
find-assign key j p [] = refl
find-assign key j p ((k, q) ∷ ps) =
    ground (arith, int_eq_iff k key, int_eq_iff k j, int_eq_iff key j, find-assign key j p ps)

-- No key stands twice, and each player stands under its own net id.
abbrev AllKeyed : List (ℤ × Player) → Type 0
AllKeyed [] = Unit
AllKeyed ((k, p) ∷ ps) = (p.net_id ≡ k) × (find k ps ≡ none) × AllKeyed ps

find-erase :
    (key j : ℤ) (ps : List (ℤ × Player))
    → AllKeyed ps
    → find j (erase key ps) ≡ (if int_eq key j then none else find j ps)
unfolding find erase
find-erase key j [] h = ground arith
find-erase key j ((k, q) ∷ ps) h =
    ground (arith, int_eq_iff k key, int_eq_iff k j, int_eq_iff key j, h.1, find-erase key j ps h.2)

-- After `add_player` the player is found under its net id, and the others as before.
get_player-add_player :
    (p : Player) (j : ℤ) (w : World)
    → get_player j (add_player p w) ≡ (if int_eq p.net_id j then some p else get_player j w)
unfolding get_player add_player
get_player-add_player p j w = find-assign p.net_id j p w.players

-- Where each player stands under its net id and once, `remove_player` takes away the player with
-- that net id, except the local one, and no other.
get_player-remove_player :
    (net_id j : ℤ) (w : World)
    → AllKeyed w.players
    → get_player j (remove_player net_id w) ≡ (
        if int_eq net_id w.local_net_id
        then get_player j w
        else if int_eq net_id j
        then none
        else get_player j w)
unfolding get_player remove_player
get_player-remove_player net_id j w h = ground (arith, find-erase net_id j w.players h)

assign-AllKeyed :
    (p : Player) (ps : List (ℤ × Player)) → AllKeyed ps → AllKeyed (assign p.net_id p ps)
unfolding assign
assign-AllKeyed p [] h = (refl, unfold find in refl, tt)
assign-AllKeyed p ((k, q) ∷ ps) h = ground (
  arith,
  int_eq_iff k p.net_id,
  int_eq_iff p.net_id k,
  find-assign p.net_id k p ps,
  assign-AllKeyed p ps h.2,
)

erase-AllKeyed : (key : ℤ) (ps : List (ℤ × Player)) → AllKeyed ps → AllKeyed (erase key ps)
unfolding erase
erase-AllKeyed key [] h = tt
erase-AllKeyed key ((k, q) ∷ ps) h =
    ground (arith, int_eq_iff key k, find-erase key k ps h.2, erase-AllKeyed key ps h.2)

-- The players are keyed by their net ids, and the local net id is -1 or that of a known player.
pub record Inv (w : World) : Type 0 where
  pub keyed : AllKeyed w.players
  pub local_known :
      (w.local_net_id ≡ minus_one) ⊎ ((p : Player) × (find w.local_net_id w.players ≡ some p))

pub new_world-Inv : Inv new_world
new_world-Inv = record { keyed = tt; local_known = inl refl }

pub clear-Inv : (w : World) → Inv (clear w)
unfolding clear
clear-Inv w = record { keyed = tt; local_known = inl refl }

add_local :
    (w : World) (p : Player)
    → (w.local_net_id ≡ minus_one) ⊎ ((q : Player) × (find w.local_net_id w.players ≡ some q))
    → (b : Bool)
    → let l = if b then p.net_id else w.local_net_id in
      (l ≡ minus_one) ⊎ ((q : Player) × (find l (assign p.net_id p w.players) ≡ some q))
add_local w p h true =
    inr (p, ground (arith, find-assign p.net_id p.net_id p w.players, int_eq_iff p.net_id p.net_id))
add_local w p (inl e) false = inl e
add_local w p (inr (q, e)) false = elim (Bool-cases (int_eq p.net_id w.local_net_id)) [
  | inl same ↦ inr (p, ground (arith, find-assign p.net_id w.local_net_id p w.players))
  | inr other ↦ inr (q, ground (arith, find-assign p.net_id w.local_net_id p w.players))
]

pub add_player-Inv : (p : Player) (w : World) → Inv w → Inv (add_player p w)
unfolding add_player
add_player-Inv p w v = record {
  keyed = assign-AllKeyed p w.players v.keyed;
  local_known = add_local w p v.local_known p.is_local;
}

pub remove_player-Inv : (net_id : ℤ) (w : World) → Inv w → Inv (remove_player net_id w)
unfolding remove_player
remove_player-Inv net_id w v = elim (Bool-cases (int_eq net_id w.local_net_id)) [
  | inl same ↦ rw same v
  | inr other ↦ rw other (record {
    keyed = erase-AllKeyed net_id w.players v.keyed;
    local_known = kept v.local_known other;
  })
]
  where
    kept :
        (w.local_net_id ≡ minus_one) ⊎ ((p : Player) × (find w.local_net_id w.players ≡ some p))
        → int_eq net_id w.local_net_id ≡ false
        → (w.local_net_id ≡ minus_one)
          ⊎ ((p : Player) × (find w.local_net_id (erase net_id w.players) ≡ some p))
    kept (inl e) other = inl e
    kept (inr (p, e)) other =
        inr (p, ground (arith, find-erase net_id w.local_net_id w.players v.keyed))
