-- ===== src/Network/Loop.antt =====
-- network/enet_wrapper.cpp: process.
use gtproxy.Prelude.{ℕ, zero, suc, Bool, List, [], ◌∷◌, Option, none, some}
use gtproxy.Utils.Zlib.{Inflate}
use gtproxy.Network.{
  Enet, Side, Session, Listeners, HostEvent, enet_connect, enet_receive, enet_disconnect, enet_none,
  end_of, set_host, on_connect, on_receive, on_disconnect,
}

-- The loop has ended, it has read out of bounds, or it still runs when the fuel is used up.
pub data Progress (S : Type 0) : Type 0 where
  ended : S → Progress S
  crashed : Progress S
  running : S → Progress S

module _ {H R : Type 0} (enet : Enet H) (listeners : Listeners H R) (breaks : ℕ → Bool)
    (inflate : Inflate) (print : Bool) (side : Side) where
  -- The switch on the event's type.
  unfoldable pub handle_event : HostEvent → Session H R → Option (Session H R)
  unfolding on_connect on_receive on_disconnect
  handle_event (enet_connect peer) s = some (on_connect enet listeners side peer s)
  handle_event (enet_receive peer bytes) s =
      on_receive enet listeners breaks inflate print side peer bytes s
  handle_event (enet_disconnect peer) s = some (on_disconnect enet listeners side peer s)
  handle_event enet_none s = some s

  unfoldable pub process : (fuel : ℕ) → Session H R → Progress (Session H R)
  unfolding handle_event
  process zero s = running s
  process (suc n) s =
      let (event, h) = enet.service (end_of side s).host in
      elim event [
        | none ↦ ended (set_host side h s)
        | some e ↦ elim (handle_event e (set_host side h s)) [
          | none ↦ crashed
          | some t ↦ process n t
        ]
      ]

  -- The events one after the other, for the statements about them.
  unfoldable pub handle_events : List HostEvent → Session H R → Option (Session H R)
  unfolding handle_event
  handle_events [] s = some s
  handle_events (e ∷ es) s = elim (handle_event e s) [ none ↦ none | some t ↦ handle_events es t ]
