-- ===== src/Network/Effects.antt =====
-- client.cpp and server.cpp: what holds of every listener holds of an event.
use gtproxy.Packet.Ids.{PacketId}
use gtproxy.Prelude.{
  some-injective, Bool, true, false, List, [], ◌∷◌, map, Option, none, some, Bytes, if◌then◌else◌,
  ◌≡◌, subst, arith,
}
use gtproxy.Utils.ByteStream.{Outcome, done, fault}
use gtproxy.Packet.Registry.{IPacket}
use gtproxy.Event.{run}
use gtproxy.Event.Types.{EventBuilder, event_builder, packet_id}
use gtproxy.Network.{
  connection_event, connect_type, disconnect_type, raw_packet_event, typed_packet_event,
  packet_type, direction_of, Side, Session, NetEvent, type_of, Listener, Listeners, callback_of,
  dispatch_event, raw_event, emit, receive_packet, receive_decoded,
}

-- Each of the listeners, on the event.
abbrev pub AllKeep :
    {H R : Type 0} → (Session H R → Session H R → Type 0) → NetEvent → List (Listener H R) → Type 0
AllKeep Rel e [] = Unit
AllKeep {H = H} {R = R} Rel e (l ∷ ls) = ((s : Session H R) → Rel s (l e s).1) × AllKeep Rel e ls

-- The events that an end tells.
pub data Tells (side : Side) : NetEvent → Type 0 where
  tells_connect : Tells side (connection_event (connect_type side))
  tells_disconnect : Tells side (connection_event (disconnect_type side))
  tells_raw : (bytes : Bytes) → Tells side (raw_packet_event (packet_type side) bytes)
  tells_typed :
      (id : PacketId) (packet : IPacket)
      → Tells side (typed_packet_event id (direction_of side) packet)

module _ {H R : Type 0} (Rel : Session H R → Session H R → Type 0)
    (same : (s : Session H R) → Rel s s)
    (after : (s t u : Session H R) → Rel s t → Rel t u → Rel s u) where
  run-AllKeep :
      (e : NetEvent) (ls : List (Listener H R)) (canceled : Bool) (s : Session H R)
      → AllKeep Rel e ls
      → Rel s (run (map (callback_of e) ls) (canceled, s)).1
  unfolding run
  run-AllKeep e [] canceled s h = same s
  run-AllKeep e (l ∷ ls) canceled s (h, hs) =
      go (l e s).0 (l e s).1 (h s) (run-AllKeep e ls false (l e s).1 hs)
    where
      go :
          (b : Bool) (t : Session H R)
          → Rel s t
          → Rel t (run (map (callback_of e) ls) (false, t)).1
          → Rel s (if b then (b, t) else run (map (callback_of e) ls) (b, t)).1
      go true t k r = k
      go false t k r = after s t _ k r

  module _ (side : Side) (listeners : Listeners H R)
      (keep : (e : NetEvent) → Tells side e → AllKeep Rel e (listeners (type_of e))) where
    pub dispatch_event-Rel :
        (e : NetEvent) → Tells side e → (s : Session H R) → Rel s (dispatch_event listeners e s).1
    unfolding dispatch_event
    dispatch_event-Rel e told s = run-AllKeep e (listeners (type_of e)) false s (keep e told)

    pub raw_event-Rel : (bytes : Bytes) (s : Session H R) → Rel s (raw_event listeners side bytes s)
    unfolding raw_event
    raw_event-Rel bytes s =
        dispatch_event-Rel (raw_packet_event (packet_type side) bytes) (tells_raw bytes) s

    emit-Rel : (packet : IPacket) (s : Session H R) → Rel s (emit listeners side packet s).1
    unfolding emit
    emit-Rel packet s = go (event_builder (packet_id packet))
      where
        built : Option EventBuilder → Bool × Session H R
        built o = elim o [
          | none ↦ (false, s)
          | some b ↦
              dispatch_event listeners
                (typed_packet_event b.packet_type_id (direction_of side) packet) s
        ]

        go : (o : Option EventBuilder) → Rel s (built o).1
        go none = same s
        go (some b) =
            dispatch_event-Rel (typed_packet_event b.packet_type_id (direction_of side) packet)
              (tells_typed b.packet_type_id packet) s

    receive_packet-Rel :
        (bytes : Bytes) (packet : IPacket) (s : Session H R)
        → Rel s (receive_packet listeners side bytes packet s)
    unfolding receive_packet
    receive_packet-Rel bytes packet s =
        go (emit listeners side packet s).0 (emit listeners side packet s).1 (emit-Rel packet s)
      where
        go :
            (b : Bool) (t : Session H R)
            → Rel s t
            → Rel s (if b then t else raw_event listeners side bytes t)
        go true t k = k
        go false t k = after s t _ k (raw_event-Rel bytes t)

    -- What the listeners keep, the end of `on_receive` keeps.
    pub receive_decoded-Rel :
        (bytes : Bytes) (o : Outcome (Option IPacket)) (s u : Session H R)
        → receive_decoded listeners side bytes o s ≡ some u
        → Rel s u
    unfolding receive_decoded
    receive_decoded-Rel bytes fault s u h = ground (arith)
    receive_decoded-Rel bytes (done none t) s u h =
        subst (Rel s) (some-injective h) (raw_event-Rel bytes s)
    receive_decoded-Rel bytes (done (some packet) t) s u h =
        subst (Rel s) (some-injective h) (receive_packet-Rel bytes packet s)
