-- ===== src/Core/WebServer.antt =====
-- core/web_server.cpp: server_data.php, which tells the game where to connect, and the connection that
-- follows. The DNS resolver, the HTTP client and the rest of httplib are parameters.
pub mod Answers
use gtproxy.Prelude.{
  ℕ, ◌^◌, Bool, true, false, not, ◌||◌, List, [], ◌∷◌, Option, none, some, Bytes, bytes, ◌==◌, ltb,
  if◌then◌else◌,
}
use gtproxy.Prelude.Int.{ℤ, pos}
use gtproxy.Utils.TextParse.{TextParse, parse, get, set_values, get_raw, is_empty}
use gtproxy.Utils.TextParse.Numbers.{starts_with_digit, digits_value, to_chars}

pub record WebServer : Type 0 where
  pub pending_address : Bytes
  pub pending_port : ℕ

-- The port that stands for none.
abbrev pub no_port : ℕ
no_port = 65535

-- A `httplib::Result` that has a response: whether its error is Success, and the response.
pub record Reply : Type 0 where
  pub succeeded : Bool
  pub status : ℕ
  pub body : Bytes

-- What the handler asks of the others: `resolve_ip` of the configured address, the POST to a host with
-- the parameters of the request (`none` for no response), and the configured port.
pub record Environment : Type 0 where
  pub address : Bytes
  pub resolve_ip : Bytes → Bytes
  pub post : (host : Bytes) → Option Reply
  pub server_port : ℤ

-- The response; a status or a content that is not set is left to httplib.
pub record Response : Type 0 where
  pub status : Option ℕ
  pub content : Option (Bytes × Bytes)

abbrev failure : ℕ → Bytes → Response
failure status text = record { status = some status; content = some (text, bytes "text/plain") }

-- `std::from_chars` into a std::uint16_t.
unfoldable pub port_from_chars : Bytes → Option ℕ
unfolding digits_value
port_from_chars str =
    if starts_with_digit str
    then (if ltb (digits_value 0 str) (2 ^ 16) then some (digits_value 0 str) else none)
    else none

abbrev pub bar : Bytes
bar = b'|' ∷ []

-- The three calls of `set`.
unfoldable pub redirected : ℤ → TextParse → TextParse
unfolding set_values to_chars
redirected port entries = set_values (bytes "type2") (bytes "1" ∷ []) (
    set_values (bytes "port") (to_chars port ∷ [])
      (set_values (bytes "server") (bytes "127.0.0.1" ∷ []) entries))

-- Behind the test of the entries. The address is kept even where the port cannot be read.
unfoldable pub answer_entries : Environment → TextParse → WebServer → WebServer × Response
unfolding get port_from_chars redirected get_raw
answer_entries w entries s =
    let address = get entries (bytes "server") (pos 0) in
    elim (port_from_chars (get entries (bytes "port") (pos 0))) [
      | none ↦
          (record s { pending_address = address }, record { status = some 500; content = none })
      | some port ↦ (
        record { pending_address = address; pending_port = port },
        record {
          status = none;
          content = some (get_raw (redirected w.server_port entries) bar [], bytes "text/html");
        },
      )
    ]

unfoldable pub answer_body : Environment → Bytes → WebServer → WebServer × Response
unfolding parse answer_entries
answer_body w body s =
    if is_empty body
    then (s, failure 502 (bytes "Empty response from server"))
    else elim (parse body bar) [
      | [] ↦ (s, record { status = some 500; content = none })
      | e ∷ es ↦ answer_entries w (e ∷ es) s
    ]

unfoldable pub answer_reply : Environment → Option Reply → WebServer → WebServer × Response
unfolding answer_body
answer_reply w none s = (s, failure 502 (bytes "Failed to get response from server"))
answer_reply w (some reply) s =
    if not reply.succeeded || not (reply.status == 200)
    then (s, failure 502 (bytes "Failed to get response from server"))
    else answer_body w reply.body s

-- The handler of /growtopia/server_data.php.
unfoldable pub server_data : Environment → WebServer → WebServer × Response
unfolding answer_reply
server_data w s =
    if is_empty (w.resolve_ip w.address)
    then (s, failure 500 (bytes "Failed to resolve server address"))
    else answer_reply w (w.post (w.resolve_ip w.address)) s

abbrev cleared : WebServer
cleared = record { pending_address = []; pending_port = no_port }

-- With the arguments of `client_.connect`, if it is called.
unfoldable pub on_client_connect : WebServer → WebServer × Option (Bytes × ℕ)
on_client_connect s =
    if s.pending_port == no_port
    then (s, none)
    else (cleared, some (s.pending_address, s.pending_port))

unfoldable on_client_disconnect : WebServer → WebServer
on_client_disconnect s = cleared
