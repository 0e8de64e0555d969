-- ===== src/Packet/TextPackets.antt =====
-- packet/message/: the packets that are lines of text.
use gtproxy.Prelude.{Bool, [], ◌∷◌, Bytes, if◌then◌else◌, str_eq, bytes}
use gtproxy.Prelude.Int.{pos}
use gtproxy.Utils.TextParse.{TextParse, add, get}
use gtproxy.Packet.Payload.{
  Payload, text_payload, game_message, generic_text_message, server_hello_message,
}

pub record JoinRequest : Type 0 where
  pub world_name : Bytes
  pub invited_world : Bool

-- The packet, and behind it what `read` and `write` have beside the message type.
pub data TextPacket : Type 0 where
  server_hello quit quit_to_exit : TextPacket
  join_request : JoinRequest → TextPacket
  validate_world : (world_name : Bytes) → TextPacket
  input : (text : Bytes) → TextPacket
  log : (msg : Bytes) → TextPacket

unfoldable pub read_join_request : TextParse → TextPacket
unfolding get
read_join_request entries = join_request (record {
  world_name = get entries (bytes "name") (pos 0);
  invited_world = str_eq (get entries (bytes "invitedWorld") (pos 0)) (bytes "1");
})

unfoldable pub read_validate_world : TextParse → TextPacket
unfolding get
read_validate_world entries = validate_world (get entries (bytes "name") (pos 1))

unfoldable pub read_input : TextParse → TextPacket
unfolding get
read_input entries = input (get entries (bytes "text") (pos 0))

unfoldable pub read_log : TextParse → TextPacket
unfolding get
read_log entries = log (get entries (bytes "msg") (pos 1))

unfoldable pub write_text : TextPacket → Payload
unfolding add
write_text server_hello = text_payload server_hello_message []
write_text quit = text_payload game_message (add (bytes "action") (bytes "quit" ∷ []) [])
write_text quit_to_exit =
    text_payload game_message (add (bytes "action") (bytes "quit_to_exit" ∷ []) [])
write_text (join_request p) = text_payload game_message (
    add (bytes "invitedWorld") ((if p.invited_world then bytes "1" else bytes "0") ∷ []) (
      add (bytes "name") (p.world_name ∷ []) (add (bytes "action") (bytes "join_request" ∷ []) [])))
write_text (validate_world name) =
    text_payload game_message
      (add (bytes "name") (name ∷ []) (add (bytes "action") (bytes "validate_world" ∷ []) []))
write_text (input str) =
    text_payload generic_text_message
      (add [] (bytes "text" ∷ str ∷ []) (add (bytes "action") (bytes "input" ∷ []) []))
write_text (log msg) =
    text_payload game_message
      (add (bytes "msg") (msg ∷ []) (add (bytes "action") (bytes "log" ∷ []) []))
