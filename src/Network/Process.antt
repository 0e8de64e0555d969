-- ===== src/Network/Process.antt =====
-- enet_wrapper.cpp: the loop of process, step by step.
use gtproxy.Prelude.{ℕ, ◌<◌, ◌≡◌, Bool, true, List, [], ◌∷◌, Option, none, some, Bytes, length}
use gtproxy.Utils.Zlib.{Inflate}
use gtproxy.Packet.Decoder.{decode}
use gtproxy.Packet.Decoder.Safety.{is_fault}
use gtproxy.Network.{
  Enet, Side, Session, Listeners, HostEvent, enet_connect, enet_receive, enet_disconnect, enet_none,
  end_of, set_host, on_connect, on_receive, on_disconnect,
}
use gtproxy.Network.Loop.{Progress, ended, crashed, running, handle_event}

module _ {H R : Type 0} (enet : Enet H) (listeners : Listeners H R) (breaks : ℕ → Bool)
    (inflate : Inflate) (print : Bool) (side : Side) where
  -- What the code does for an event.
  pub data Step : HostEvent → Session H R → Session H R → Type 0 where
    connected :
        (peer : ℕ) (s : Session H R)
        → Step (enet_connect peer) s (on_connect enet listeners side peer s)
    received :
        (peer : ℕ) (bytes : Bytes) (s t : Session H R)
        → on_receive enet listeners breaks inflate print side peer bytes s ≡ some t
        → Step (enet_receive peer bytes) s t
    disconnected :
        (peer : ℕ) (s : Session H R)
        → Step (enet_disconnect peer) s (on_disconnect enet listeners side peer s)
    nothing : (s : Session H R) → Step enet_none s s

  -- The event that the host of the end gives, if any, and the session afterwards.
  abbrev pub served : Session H R → Option HostEvent
  served s = (enet.service (end_of side s).host).0

  abbrev pub after_service : Session H R → Session H R
  after_service s = set_host side (enet.service (end_of side s).host).1 s

  -- The host gives these events one after the other, each when the one before it is dealt with.
  pub data Steps : List HostEvent → Session H R → Session H R → Type 0 where
    none_yet : (s : Session H R) → Steps [] s s
    more :
        (e : HostEvent) (es : List HostEvent) (s t u : Session H R)
        → served s ≡ some e
        → Step e (after_service s) t
        → Steps es t u
        → Steps (e ∷ es) s u

  -- What `process` may come to within so many rounds: it ends where the host gives no event; it
  -- reads out of bounds where the decoder does, on a message that the host gives; or it runs on,
  -- and then the host gave as many events as there were rounds.
  abbrev pub Explained : (fuel : ℕ) → Session H R → Progress (Session H R) → Type 0
  Explained fuel s (ended u) =
      (es : List HostEvent) × (t : Session H R) × (length es < fuel)
      × Steps es s t
      × (served t ≡ none)
      × (u ≡ after_service t)
  Explained fuel s crashed =
      (es : List HostEvent) × (t : Session H R) × (peer : ℕ) × (bytes : Bytes) × Steps es s t
      × (served t ≡ some (enet_receive peer bytes))
      × (is_fault (decode breaks inflate print bytes) ≡ true)
  Explained fuel s (running u) = (es : List HostEvent) × (length es ≡ fuel) × Steps es s u

  abbrev handled : HostEvent → Session H R → Option (Session H R)
  handled e s = handle_event enet listeners breaks inflate print side e s
