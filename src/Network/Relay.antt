-- ===== src/Network/Relay.antt =====
-- client.cpp, server.cpp and forwarding_handler.cpp: what arrives at one end leaves by the other.
use gtproxy.Prelude.{
  append-nil, ℕ, Bool, true, false, ◌≡◌, refl, sym, ap, ◌∙◌, List, [], ◌∷◌, ◌++◌, map, Option, none,
  some, Bytes, length, if◌then◌else◌,
}
use gtproxy.Utils.ByteStream.{Outcome, ByteStream, done}
use gtproxy.Utils.Zlib.{Inflate}
use gtproxy.Packet.Registry.{IPacket}
use gtproxy.Packet.Decoder.{decode}
use gtproxy.Event.{run}
use gtproxy.Network.{
  receive_decoded, Enet, Side, client, server, Session, raw_packet_event, type_of, Listener,
  Listeners, packet_type, is_malformed, end_of, set_host, is_peer, callback_of, dispatch_event,
  connected_peer, write, forward_client_bound, forward_server_bound, raw_event, emit,
  receive_packet, on_receive,
}

abbrev pub other : Side → Side
other client = server
other server = client

-- The write to an end whose peer is connected.
write-connected :
    {H R : Type 0} (enet : Enet H) (side : Side) (bytes : Bytes) (s : Session H R) (q : ℕ)
    → connected_peer enet (end_of side s) ≡ some q
    → write enet side 0 bytes s ≡ (
      (enet.send q 0 bytes (end_of side s).host).0,
      set_host side (enet.send q 0 bytes (end_of side s).host).1 s,
    )
unfolding write
write-connected enet side bytes s q c =
    ap
      (λ (o : Option ℕ). elim o [
        | none ↦ (false, s)
        | some p ↦
            let (sent, h) = enet.send p 0 bytes (end_of side s).host in (sent, set_host side h s)
      ])
      c

module _ {H R : Type 0} (enet : Enet H) where
  -- The listener of the ForwardingHandler for what arrives at an end.
  abbrev pub forwarder : Side → Listener H R
  forwarder client = forward_client_bound enet
  forwarder server = forward_server_bound enet

  -- The listener changes nothing on a raw packet and does not cancel it.
  abbrev Watches : Listener H R → Type 0
  Watches l =
      (type : ℕ) (bytes : Bytes) (s : Session H R) → l (raw_packet_event type bytes) s ≡ (false, s)

  abbrev AllWatch : List (Listener H R) → Type 0
  AllWatch [] = Unit
  AllWatch (l ∷ ls) = Watches l × AllWatch ls

  run-AllWatch :
      (type : ℕ) (bytes : Bytes) (ls rest : List (Listener H R)) (s : Session H R)
      → AllWatch ls
      → run (map (callback_of (raw_packet_event type bytes)) (ls ++ rest)) (false, s)
        ≡ run (map (callback_of (raw_packet_event type bytes)) rest) (false, s)
  unfolding run
  run-AllWatch type bytes [] rest s h = refl
  run-AllWatch type bytes (l ∷ ls) rest s (h, hs) =
      rw (h type bytes s) (run-AllWatch type bytes ls rest s hs)

  run_only-AllWatch :
      (type : ℕ) (bytes : Bytes) (ls : List (Listener H R)) (s : Session H R)
      → AllWatch ls
      → run (map (callback_of (raw_packet_event type bytes)) ls) (false, s) ≡ (false, s)
  unfolding run
  run_only-AllWatch type bytes ls s h =
      ap
        (λ (l : List (Listener H R)).
          run (map (callback_of (raw_packet_event type bytes)) l) (false, s))
        (sym (append-nil ls))
      ∙ run-AllWatch type bytes ls [] s h

  forwarder-raw :
      (side : Side) (bytes : Bytes) (s : Session H R)
      → forwarder side (raw_packet_event (packet_type side) bytes) s
        ≡ (false, (write enet (other side) 0 bytes s).1)
  unfolding forward_client_bound forward_server_bound
  forwarder-raw client bytes s = refl
  forwarder-raw server bytes s = refl

  -- The listeners for what arrives at an end: the forwarder, and others that only look on.
  pub record Forwards (side : Side) (listeners : Listeners H R) : Type 0 where
    pub before : List (Listener H R)
    pub after : List (Listener H R)
    pub listed : listeners (packet_type side) ≡ before ++ forwarder side ∷ after
    pub before_watch : AllWatch before
    pub after_watch : AllWatch after

  module _ (listeners : Listeners H R) (side : Side) (f : Forwards side listeners) where
    raw_event_lem :
        (bytes : Bytes) (s : Session H R)
        → raw_event listeners side bytes s ≡ (write enet (other side) 0 bytes s).1
    unfolding raw_event dispatch_event type_of run
    raw_event_lem bytes s =
        let e = raw_packet_event (packet_type side) bytes in
        let t = (write enet (other side) 0 bytes s).1 in
        ap (λ (ls : List (Listener H R)). (run (map (callback_of e) ls) (false, s)).1) f.listed
        ∙ ap (λ (r : Bool × Session H R). r.1)
            (run-AllWatch (packet_type side) bytes f.before (forwarder side ∷ f.after) s
              f.before_watch)
        ∙ ap
            (λ (r : Bool × Session H R). (if r.0 then r else run (map (callback_of e) f.after) r).1)
            (forwarder-raw side bytes s)
        ∙ ap (λ (r : Bool × Session H R). r.1)
            (run_only-AllWatch (packet_type side) bytes f.after t f.after_watch)

    -- What an end tells of a packet before it is forwarded: the event of its class, if it has one.
    abbrev emitted : Option IPacket → Session H R → Bool × Session H R
    emitted none s = (false, s)
    emitted (some packet) s = emit listeners side packet s

    module _ (breaks : ℕ → Bool) (inflate : Inflate) (print : Bool) (peer : ℕ) (bytes : Bytes)
        (s : Session H R) where
      -- A message of the size that is let through, from the peer of the end.
      pub record Accepted : Type 0 where
        pub from_peer : is_peer peer (end_of side s).peer ≡ true
        pub well_sized : is_malformed side (length bytes) ≡ false

      received_lem :
          (o : Option IPacket) (t : ByteStream) (u : Session H R) (canceled : Bool)
          → emitted o s ≡ (canceled, u)
          → receive_decoded listeners side bytes (done o t) s
            ≡ some (if canceled then u else raw_event listeners side bytes u)
      unfolding receive_decoded receive_packet
      received_lem none t u canceled e =
          ap
            (λ (r : Bool × Session H R).
              some (if r.0 then r.1 else raw_event listeners side bytes r.1))
            e
      received_lem (some packet) t u canceled e =
          ap
            (λ (r : Bool × Session H R).
              some (if r.0 then r.1 else raw_event listeners side bytes r.1))
            e

      on_receive_lem :
          (o : Option IPacket) (t : ByteStream) (u : Session H R) (canceled : Bool)
          → Accepted
          → decode breaks inflate print bytes ≡ done o t
          → emitted o s ≡ (canceled, u)
          → on_receive enet listeners breaks inflate print side peer bytes s
            ≡ some (if canceled then u else raw_event listeners side bytes u)
      unfolding on_receive
      on_receive_lem o t u canceled a d e =
          rw (a.from_peer, a.well_sized)
            (ap (λ (r : Outcome (Option IPacket)). receive_decoded listeners side bytes r s) d
              ∙ received_lem o t u canceled e)

      -- A message that is accepted and decoded (to a packet, or to none), and whose event no
      -- listener cancels, is handed to ENet once, byte for byte, for the peer of the other end on
      -- channel 0, if that peer is connected when the event has been told; nothing else changes
      -- after the event. The listeners for the raw bytes are the forwarder and some that look on.
      pub on_receive-write :
          (o : Option IPacket) (t : ByteStream) (u : Session H R) (q : ℕ)
          → Accepted
          → decode breaks inflate print bytes ≡ done o t
          → emitted o s ≡ (false, u)
          → connected_peer enet (end_of (other side) u) ≡ some q
          → on_receive enet listeners breaks inflate print side peer bytes s
            ≡ some (set_host (other side) (enet.send q 0 bytes (end_of (other side) u).host).1 u)
      on_receive-write o t u q a d e c =
          on_receive_lem o t u false a d e
          ∙ ap some (raw_event_lem bytes u)
          ∙ ap (λ (r : Bool × Session H R). some r.1)
              (write-connected enet (other side) bytes u q c)

      -- A message whose event a listener cancels is not forwarded: the session is as the
      -- listeners left it.
      pub on_receive_canceled :
          (o : Option IPacket) (t : ByteStream) (u : Session H R)
          → Accepted
          → decode breaks inflate print bytes ≡ done o t
          → emitted o s ≡ (true, u)
          → on_receive enet listeners breaks inflate print side peer bytes s ≡ some u
      on_receive_canceled o t u a d e = on_receive_lem o t u true a d e
