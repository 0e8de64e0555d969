-- ===== src/Network.antt =====
-- network/client.cpp, network/server.cpp and core/handlers/forwarding_handler.cpp: the two ends of the
-- proxy. ENet is a parameter, and so are the listeners, in the order in which the dispatcher calls them.
pub mod Relay
pub mod Loop
pub mod Effects
pub mod Peers
pub mod Process
pub mod Commands
pub mod Dns
use gtproxy.Prelude.{
  ℕ, Bool, true, false, ◌||◌, List, map, Option, none, some, Bytes, length, ltb, ◌==◌,
  if◌then◌else◌,
}
use gtproxy.Utils.ByteStream.{Outcome, done, fault}
use gtproxy.Utils.Zlib.{Inflate}
use gtproxy.Packet.Ids.{PacketId}
use gtproxy.Packet.Registry.{IPacket}
use gtproxy.Packet.Decoder.{decode}
use gtproxy.Event.{run, Callback}
use gtproxy.Event.Types.{
  client_connect, server_connect, client_disconnect, server_disconnect, client_bound_packet,
  server_bound_packet, packet_event_type, event_builder, packet_id,
}

-- `ENetEvent`
pub data HostEvent : Type 0 where
  enet_connect : (peer : ℕ) → HostEvent
  enet_receive : (peer : ℕ) → Bytes → HostEvent
  enet_disconnect : (peer : ℕ) → HostEvent
  enet_none : HostEvent

-- What the code calls of ENet, on a host. A number stands for the address of a peer.
pub record Enet (H : Type 0) : Type 0 where
  -- `peer->state == ENET_PEER_STATE_CONNECTED`
  pub connected : (peer : ℕ) → H → Bool
  -- `enet_peer_send` of a new reliable packet; true is the result 0.
  pub send : (peer channel : ℕ) → Bytes → H → Bool × H
  pub peer_disconnect : (peer : ℕ) → H → H
  pub peer_disconnect_now : (peer : ℕ) → H → H
  -- `enet_peer_timeout`, with the arguments that the server gives
  pub peer_timeout : (peer : ℕ) → H → H
  -- `enet_address_set_host` and `enet_host_connect` with two channels
  pub host_connect : (host : Bytes) (port : ℕ) → H → Option ℕ × H
  pub host_flush : H → H
  -- `enet_host_service`, with the event if its result is positive
  pub service : H → Option HostEvent × H

-- The client connects to the game's server; the server is what the game connects to.
pub data Side : Type 0 where
  client server : Side

-- `host_`, which the constructor has tested, and `peer_`.
pub record Endpoint (H : Type 0) : Type 0 where
  pub host : H
  pub peer : Option ℕ

-- Both ends, and what else the listeners change.
pub record Session (H R : Type 0) : Type 0 where
  pub client_end : Endpoint H
  pub server_end : Endpoint H
  pub others : R

pub data Direction : Type 0 where
  client_bound server_bound : Direction

pub data NetEvent : Type 0 where
  connection_event : (type : ℕ) → NetEvent
  raw_packet_event : (type : ℕ) → Bytes → NetEvent
  typed_packet_event : PacketId → Direction → IPacket → NetEvent

unfoldable pub type_of : NetEvent → ℕ
unfolding packet_event_type
type_of (connection_event type) = type
type_of (raw_packet_event type bytes) = type
type_of (typed_packet_event id direction packet) = packet_event_type id

-- The flag is `canceled` when the listener returns.
abbrev pub Listener : Type 0 → Type 0 → Type 0
Listener H R = NetEvent → Session H R → Bool × Session H R

abbrev pub Listeners : Type 0 → Type 0 → Type 0
Listeners H R = (type : ℕ) → List (Listener H R)

-- Of `event::Type`, what each end tells.
abbrev pub connect_type : Side → ℕ
connect_type client = server_connect
connect_type server = client_connect

abbrev pub disconnect_type : Side → ℕ
disconnect_type client = server_disconnect
disconnect_type server = client_disconnect

abbrev pub packet_type : Side → ℕ
packet_type client = client_bound_packet
packet_type server = server_bound_packet

abbrev pub direction_of : Side → Direction
direction_of client = client_bound
direction_of server = server_bound

-- `data.size() < 4`, and for the server `data.size() > 16384`.
unfoldable pub is_malformed : Side → (size : ℕ) → Bool
is_malformed client size = ltb size 4
is_malformed server size = ltb size 4 || ltb 16384 size

-- `peer == peer_`
unfoldable pub is_peer : ℕ → Option ℕ → Bool
is_peer peer none = false
is_peer peer (some p) = peer == p

module _ {H : Type 0} (enet : Enet H) where
  -- The peer, if it is connected.
  unfoldable pub connected_peer : Endpoint H → Option ℕ
  connected_peer e = elim e.peer [
    | none ↦ none
    | some p ↦ if enet.connected p e.host then some p else none
  ]

  unfoldable pub is_connected : Endpoint H → Bool
  unfolding connected_peer
  is_connected e = elim (connected_peer e) [ none ↦ false | some p ↦ true ]

module _ {H R : Type 0} where
  abbrev pub end_of : Side → Session H R → Endpoint H
  end_of client s = s.client_end
  end_of server s = s.server_end

  abbrev set_end : Side → Endpoint H → Session H R → Session H R
  set_end client e s = record s { client_end = e }
  set_end server e s = record s { server_end = e }

  abbrev pub set_host : Side → H → Session H R → Session H R
  set_host side h s = set_end side (record (end_of side s) { host = h }) s

  abbrev pub set_peer : Side → Option ℕ → Session H R → Session H R
  set_peer side p s = set_end side (record (end_of side s) { peer = p }) s

  abbrev pub callback_of : NetEvent → Listener H R → Callback (Bool × Session H R)
  callback_of e l (canceled, s) = let (canceled, t) = l e s in ((canceled, t), canceled)

  -- The dispatch of a new event; the flag is its `canceled` afterwards.
  unfoldable pub dispatch_event : Listeners H R → NetEvent → Session H R → Bool × Session H R
  unfolding type_of run
  dispatch_event listeners e s = run (map (callback_of e) (listeners (type_of e))) (false, s)

  module _ (listeners : Listeners H R) where
    -- The event for the bytes as they came.
    unfoldable pub raw_event : Side → Bytes → Session H R → Session H R
    unfolding dispatch_event
    raw_event side bytes s =
        (dispatch_event listeners (raw_packet_event (packet_type side) bytes) s).1

    -- `has_event` and `emit`: the event that the builder for the packet's id makes, if it has one.
    unfoldable pub emit : Side → IPacket → Session H R → Bool × Session H R
    unfolding dispatch_event event_builder packet_id
    emit side packet s = elim (event_builder (packet_id packet)) [
      | none ↦ (false, s)
      | some b ↦
          dispatch_event listeners (typed_packet_event b.packet_type_id (direction_of side) packet)
            s
    ]

    unfoldable pub receive_packet : Side → Bytes → IPacket → Session H R → Session H R
    unfolding emit raw_event
    receive_packet side bytes packet s =
        let (canceled, t) = emit side packet s in if canceled then t else raw_event side bytes t

    -- The end of `on_receive`, behind `decode`.
    unfoldable pub receive_decoded :
        Side → Bytes → Outcome (Option IPacket) → Session H R → Option (Session H R)
    unfolding raw_event receive_packet
    receive_decoded side bytes fault s = none
    receive_decoded side bytes (done none t) s = some (raw_event side bytes s)
    receive_decoded side bytes (done (some packet) t) s = some (receive_packet side bytes packet s)

  module _ (enet : Enet H) where
    unfoldable pub write : Side → (channel : ℕ) → Bytes → Session H R → Bool × Session H R
    unfolding connected_peer
    write side channel bytes s = elim (connected_peer enet (end_of side s)) [
      | none ↦ (false, s)
      | some p ↦
          let (sent, h) = enet.send p channel bytes (end_of side s).host in
          (sent, set_host side h s)
    ]

    unfoldable pub disconnect : Side → Session H R → Session H R
    disconnect side s = elim (end_of side s).peer [
      | none ↦ s
      | some p ↦ set_host side (enet.peer_disconnect p (end_of side s).host) s
    ]

    unfoldable disconnect_now : Side → Session H R → Session H R
    disconnect_now side s = elim (end_of side s).peer [
      | none ↦ s
      | some p ↦
          set_end side
            (record { host = enet.peer_disconnect_now p (end_of side s).host; peer = none }) s
    ]

    unfoldable flush : Side → Session H R → Session H R
    flush side s = set_host side (enet.host_flush (end_of side s).host) s

    -- `Client::connect`
    unfoldable pub connect : (host : Bytes) (port : ℕ) → Session H R → Bool × Session H R
    connect host port s =
        let (peer, h) = enet.host_connect host port s.client_end.host in
        (
          elim peer [ none ↦ false | some p ↦ true ],
          record s { client_end = record { host = h; peer = peer } },
        )

    -- `ForwardingHandler`: what arrives at one end is written to the other.
    unfoldable pub forward_client_bound : Listener H R
    unfolding write
    forward_client_bound (raw_packet_event type bytes) s = (false, (write server 0 bytes s).1)
    forward_client_bound _ s = (false, s)

    unfoldable pub forward_server_bound : Listener H R
    unfolding write
    forward_server_bound (raw_packet_event type bytes) s = (false, (write client 0 bytes s).1)
    forward_server_bound _ s = (false, s)

    unfoldable pub keep_peer : Side → ℕ → Session H R → Session H R
    keep_peer client peer s = set_peer client (some peer) s
    keep_peer server peer s =
        set_end server
          (record { host = enet.peer_timeout peer s.server_end.host; peer = some peer }) s

    module _ (listeners : Listeners H R) where
      unfoldable pub on_connect : Side → ℕ → Session H R → Session H R
      unfolding dispatch_event keep_peer
      on_connect side peer s =
          (dispatch_event listeners (connection_event (connect_type side))
            (keep_peer side peer s)).1

      unfoldable pub on_disconnect : Side → ℕ → Session H R → Session H R
      unfolding dispatch_event is_peer
      on_disconnect side peer s =
          if is_peer peer (end_of side s).peer
          then (dispatch_event listeners (connection_event (disconnect_type side))
              (set_peer side none s)).1
          else s

      module _ (breaks : ℕ → Bool) (inflate : Inflate) (print : Bool) where
        -- `none` is an access out of bounds in the decoder.
        unfoldable pub on_receive : Side → ℕ → Bytes → Session H R → Option (Session H R)
        unfolding is_peer is_malformed disconnect decode receive_decoded
        on_receive side peer bytes s =
            if is_peer peer (end_of side s).peer
            then (if is_malformed side (length bytes)
                then some (disconnect side s)
                else receive_decoded listeners side bytes (decode breaks inflate print bytes) s)
            else some s
