-- ===== src/Tests/Networks.antt =====
-- client.cpp, server.cpp and the listeners on both ends, over a host that keeps lists.
use gtproxy.Prelude.{
  inr, if◌then◌else◌, str_eq, ℕ, ◌≡◌, refl, arith, true, false, List, [], ◌∷◌, ◌++◌, Option, none,
  some, Bytes, bytes, ◌==◌,
}
use gtproxy.Utils.ByteStream.{read_uint, read_string}
use gtproxy.Packet.Ids.{PacketId, derive_packet_id}
use gtproxy.Packet.Ids.Patterns.{at_newlines}
use gtproxy.Packet.TextPackets.{TextPacket}
use gtproxy.Packet.Payload.{Payload, text_payload}
use gtproxy.Packet.Registry.{IPacket, text_class, create_text}
use gtproxy.Utils.TextParse.{get_raw, TextParse, parse}
use gtproxy.Event.Casts.{create, event_builder-create}
use gtproxy.Event.Types.{event_builder, id_value, packet_id, text_packet_id, packet_event_type}
use gtproxy.Packet.Decoder.{decode}
use gtproxy.Command.{is_space, Command, CommandRegistry, success, add}
use gtproxy.Network.{
  NetEvent, type_of, connect, Enet, client, server, Session, Listener, Listeners, HostEvent,
  enet_connect, enet_receive, enet_disconnect, set_host, is_peer, is_malformed, connected_peer,
  forward_server_bound, on_receive,
}
use gtproxy.Network.Relay.{Forwards, on_receive-write}
use gtproxy.Network.Effects.{
  Tells, tells_connect, tells_disconnect, tells_raw, tells_typed, AllKeep,
}
use gtproxy.Network.Loop.{handle_events, process, ended}
use gtproxy.Network.Peers.{LetsGo, Peers, handle_events-Peers}
use gtproxy.Network.Commands.{command_listener, on_receive-add}
use gtproxy.Tests.Messages.{copied}

record Host : Type 0 where
  queue : List HostEvent
  sent : List (ℕ × Bytes)

abbrev pop : Host → Option HostEvent × Host
pop h = elim h.queue [ [] ↦ (none, h) | e ∷ es ↦ (some e, record h { queue = es }) ]

-- Every peer is connected, and nothing fails.
abbrev enet : Enet Host
enet = record {
  connected = λ peer h. true;
  send = λ peer channel bytes h. (true, record h { sent = (peer, bytes) ∷ h.sent });
  peer_disconnect = λ peer h. h;
  peer_disconnect_now = λ peer h. h;
  peer_timeout = λ peer h. h;
  host_connect = λ host port h. (some 1, h);
  host_flush = λ h. h;
  service = pop;
}

abbrev idle_host : Host
idle_host = record { queue = []; sent = [] }

-- The game is the peer 7, and its server the peer 1.
abbrev session : Session Host (List Bytes)
session = record {
  client_end = record { host = idle_host; peer = some 1 };
  server_end = record { host = idle_host; peer = some 7 };
  others = [];
}

abbrev relaying : Listeners Host (List Bytes)
relaying type = if type == 5 then forward_server_bound enet ∷ [] else []

relaying-Forwards : Forwards enet server relaying
relaying-Forwards = record {
  before = [];
  after = [];
  listed = refl;
  before_watch = tt;
  after_watch = tt;
}

-- A message of a type that is not decoded.
abbrev message : Bytes
message = 9 ∷ 0 ∷ 0 ∷ 0 ∷ 5 ∷ []

on_receive-write_example :
    on_receive enet relaying at_newlines copied false server 7 message session
    ≡ some (set_host client (record idle_host { sent = (1, message) ∷ [] }) session)
unfolding decode read_uint is_peer is_malformed connected_peer
on_receive-write_example =
    on_receive-write enet relaying server relaying-Forwards at_newlines copied false 7 message
      session none (record { data_vec = []; data_span = message; read_offset = 4 }) session 1
      (record { from_peer = refl; well_sized = refl }) refl refl refl

abbrev warp : Command (Session Host (List Bytes))
warp = record {
  name = bytes "warp";
  description = bytes "";
  execute = λ ctx s. (record s { others = ctx.args }, success);
}

abbrev none_yet : CommandRegistry (Session Host (List Bytes))
none_yet = record { prefix = b'/'; commands = [] }

abbrev handler : Listener Host (List Bytes)
handler = command_listener (add warp none_yet)

abbrev handling : Listeners Host (List Bytes)
handling type =
    if type == 5
    then forward_server_bound enet ∷ []
    else if type == 0x2005
    then handler ∷ []
    else []

-- NET_MESSAGE_GENERIC_TEXT with a line of the chat, as the game sends it.
abbrev typed_message : Bytes
typed_message =
    2 ∷ 0 ∷ 0 ∷ 0 ∷ (bytes "action|input" ++ (10 ∷ (bytes "|text|/warp START" ++ (0 ∷ []))))

abbrev handling-Forwards : Forwards enet server handling
handling-Forwards = record {
  before = [];
  after = [];
  listed = refl;
  before_watch = tt;
  after_watch = tt;
}

abbrev typed_entries : TextParse
typed_entries = (bytes "action", bytes "input" ∷ []) ∷ (bytes "text", bytes "/warp START" ∷ []) ∷ []

on_receive-add_example :
    on_receive enet handling at_newlines copied false server 7 typed_message session
    ≡ some
        (warp.execute
          (record { args = bytes "START" ∷ []; raw_input = bytes "/warp START" })
          session).0
unfolding decode read_uint read_string is_peer is_malformed packet_event_type is_space parse
    create_text str_eq
on_receive-add_example =
    on_receive-add enet handling handling-Forwards warp none_yet [] refl (bytes "START" ∷ [])
      (
        (λ e. cc, (refl, (refl, (refl, (refl, tt))))),
        ((λ e. cc, (refl, (refl, (refl, (refl, (refl, tt)))))), tt),
      )
      at_newlines copied false 7 typed_message session typed_entries
      (record { data_vec = []; data_span = typed_message; read_offset = 34 })
      (record { from_peer = refl; well_sized = refl }) refl

-- A listener that notes each event.
abbrev noting : Listener Host (List Bytes)
noting e s = (false, record s { others = [] ∷ s.others })

-- What `Client::connect` does when the game connects.
abbrev connecting : Listener Host (List Bytes)
connecting e s = (false, (connect enet (bytes "game") 17091 s).1)

-- On ClientConnect, which the client's end does not tell, the client connects.
abbrev watching : Listeners Host (List Bytes)
watching type = if type == 0 then connecting ∷ [] else noting ∷ []

typed_later : (id : PacketId) → (packet_event_type id == 0) ≡ false
unfolding packet_event_type id_value
typed_later id = ground arith

watching-AllKeep :
    (e : NetEvent) → Tells client e → AllKeep (LetsGo client) e (watching (type_of e))
unfolding type_of
watching-AllKeep _ tells_connect = ((λ s. inr refl), tt)
watching-AllKeep _ tells_disconnect = ((λ s. inr refl), tt)
watching-AllKeep _ (tells_raw bytes) = ((λ s. inr refl), tt)
watching-AllKeep _ (tells_typed id packet) = rw (typed_later id) ((λ s. inr refl), tt)

abbrev arrivals : List HostEvent
arrivals =
    enet_connect 3
    ∷ enet_receive 3 (9 ∷ [])
    ∷ enet_disconnect 7
    ∷ enet_connect 4
    ∷ enet_disconnect 4
    ∷ []

abbrev afterwards : Session Host (List Bytes)
afterwards = record session {
  client_end = record { host = idle_host; peer = none };
  others = [] ∷ [] ∷ [] ∷ [];
}

handle_events-Peers_example : Peers arrivals (some 1) none
unfolding handle_events decode read_uint is_peer is_malformed
handle_events-Peers_example =
    handle_events-Peers enet watching at_newlines copied false client watching-AllKeep arrivals
      session afterwards refl

abbrev busy : Session Host (List Bytes)
busy = record session {
  client_end = record { host = record { queue = arrivals; sent = [] }; peer = none };
}

-- The five events are dealt with, and the loop ends.
process_ended : process enet watching at_newlines copied false client 6 busy ≡ ended afterwards
unfolding process decode read_uint is_peer is_malformed
process_ended = refl

abbrev quit_payload : Payload
quit_payload = text_payload 3 ((bytes "action", bytes "quit" ∷ []) ∷ [])

abbrev quit_packet : IPacket
quit_packet = text_class ((bytes "action", bytes "quit" ∷ []) ∷ []) TextPacket.quit

event_builder-create_example :
    (PacketId.quit ≡ packet_id quit_packet)
    × (PacketId.quit ≡ packet_id quit_packet)
    × (packet_id quit_packet ≡ PacketId.quit)
unfolding derive_packet_id create create_text get_raw str_eq packet_id text_packet_id event_builder
event_builder-create_example =
    event_builder-create at_newlines copied quit_payload PacketId.quit quit_packet
      (record { packet_type = PacketId.quit; packet_type_id = PacketId.quit }) refl refl refl
