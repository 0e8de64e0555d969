-- ===== src/Network/Commands.antt =====
-- command/command_handler.cpp as a listener of the server: a typed command does not reach the game.
use gtproxy.Prelude.{
  if◌then◌else◌, ℕ, Bool, true, false, ◌≡◌, ap, ◌∙◌, List, ◌∷◌, ◌++◌, map, Option, none, some,
  Bytes,
}
use gtproxy.Utils.ByteStream.{ByteStream, done}
use gtproxy.Utils.TextParse.{TextParse}
use gtproxy.Utils.Zlib.{Inflate}
use gtproxy.Packet.Ids.{PacketId}
use gtproxy.Packet.TextPackets.{TextPacket}
use gtproxy.Packet.Registry.{IPacket, text_class}
use gtproxy.Packet.Decoder.{decode}
use gtproxy.Event.{run}
use gtproxy.Event.Types.{packet_event_type, event_builder, packet_id, text_packet_id}
use gtproxy.Command.{Command, CommandRegistry, add, on_text_packet}
use gtproxy.Command.Typed.{AllWords, spaced, on_text_packet-add}
use gtproxy.Network.{
  Enet, server, server_bound, Session, NetEvent, typed_packet_event, Listener, Listeners,
  dispatch_event, callback_of, emit, on_receive,
}
use gtproxy.Network.Relay.{Accepted, Forwards, on_receive_canceled}

-- `evt->get<packet::message::Input>()`
unfoldable input_text : IPacket → Option Bytes
input_text (text_class entries (TextPacket.input text)) = some text
input_text _ = none

module _ {H R : Type 0} where
  -- `CommandHandler::on_text_packet`, on the events of its type.
  unfoldable pub command_listener : CommandRegistry (Session H R) → Listener H R
  unfolding on_text_packet input_text
  command_listener r (typed_packet_event PacketId.input direction packet) s =
      on_text_packet r (input_text packet) s
  command_listener r _ s = (false, s)

  module _ (enet : Enet H) (listeners : Listeners H R) (f : Forwards enet server listeners)
      (cmd : Command (Session H R)) (r : CommandRegistry (Session H R)) (rest : List (Listener H R))
      (first : listeners (packet_event_type PacketId.input) ≡ command_listener (add cmd r) ∷ rest)
      (args : List Bytes) (words : AllWords (cmd.name ∷ args)) where
    abbrev line : Bytes
    line = r.prefix ∷ (cmd.name ++ spaced args)

    abbrev executed : Session H R → Session H R
    executed s = (cmd.execute (record { args = args; raw_input = line }) s).0

    abbrev typed : TextParse → NetEvent
    typed entries =
        typed_packet_event PacketId.input server_bound (text_class entries (TextPacket.input line))

    command_listener-add :
        (entries : TextParse) (s : Session H R)
        → command_listener (add cmd r) (typed entries) s ≡ (true, executed s)
    unfolding command_listener input_text
    command_listener-add entries s = on_text_packet-add cmd r args s words

    emit-input :
        (entries : TextParse) (s : Session H R)
        → emit listeners server (text_class entries (TextPacket.input line)) s ≡ (true, executed s)
    unfolding emit event_builder packet_id text_packet_id dispatch_event run
    emit-input entries s =
        ap (λ (ls : List (Listener H R)). run (map (callback_of (typed entries)) ls) (false, s))
          first
        ∙ ap
            (λ (q : Bool × Session H R).
              if q.0 then q else run (map (callback_of (typed entries)) rest) q)
            (command_listener-add entries s)

    -- A line of the chat that is the prefix, the name of a command that was added, and words, in a
    -- message of the game that the server's end accepts and that is decoded as that input: the
    -- command is run once, with the words as its arguments, and the message is not forwarded. The
    -- command handler's listener is the first for inputs.
    pub on_receive-add :
        (breaks : ℕ → Bool) (inflate : Inflate) (print : Bool) (peer : ℕ) (bytes : Bytes)
        (s : Session H R) (entries : TextParse) (t : ByteStream)
        → Accepted enet listeners server f breaks inflate print peer bytes s
        → decode breaks inflate print bytes
          ≡ done (some (text_class entries (TextPacket.input line))) t
        → on_receive enet listeners breaks inflate print server peer bytes s
          ≡ some (cmd.execute (record { args = args; raw_input = line }) s).0
    on_receive-add breaks inflate print peer bytes s entries t a d =
        on_receive_canceled enet listeners server f breaks inflate print peer bytes s
          (some (text_class entries (TextPacket.input line))) t (executed s) a d
          (emit-input entries s)
