-- ===== src/Core/ConnectionHandler.antt =====
-- core/handlers/connection_handler.cpp: which server the proxy connects to, and when it hangs up.
pub mod Redirects
use gtproxy.Prelude.{
  ℕ, ◌^◌, ◌%◌, Bool, true, false, not, ◌&&◌, ◌||◌, List, [], ◌∷◌, ◌++◌, Bytes, bytes, ◌==◌,
  if◌then◌else◌,
}
use gtproxy.Utils.TextParse.{is_empty}
use gtproxy.Packet.CallPackets.{OnSendToServer, OnSuperMainStart}

-- `event::Direction`
pub data Direction : Type 0 where
  client_bound server_bound : Direction

-- The events that the handler listens to, with the packet that it asks of them.
pub data Event : Type 0 where
  client_connect client_disconnect server_disconnect : Event
  on_send_to_server : OnSendToServer → Event
  quit disconnect : Direction → Event
  send_item_database_data : Direction → (items_dat : Bytes) → Event
  on_super_main_start : OnSuperMainStart → Event

-- The calls that the handler makes, in their order.
pub data Call : Type 0 where
  connect : (address : Bytes) (port : ℕ) → Call
  disconnect_client disconnect_client_now disconnect_server disconnect_server_now : Call
  write_to_server : OnSendToServer → Call
  parse_items save_items : (items_dat : Bytes) → Call
  load_items : Call

-- What the handler asks of the others while it handles an event: `client_.is_connected`,
-- `server_.is_connected`, the port of the configuration, whether the item database takes the data, and
-- the hash of the cached file.
pub record Environment : Type 0 where
  pub client_connected : Bool
  pub server_connected : Bool
  pub server_port : ℕ
  pub parsed : Bytes → Bool
  pub cached_hash : ℕ

pub record ConnectionHandler : Type 0 where
  pub pending_address : Bytes
  pub pending_port : ℕ

-- The port that stands for none.
abbrev pub no_port : ℕ
no_port = 65535

unfoldable pub on_client_connect : ConnectionHandler → ConnectionHandler × List Call
on_client_connect h = if h.pending_port == no_port then (h, []) else (
  record { pending_address = []; pending_port = no_port },
  connect h.pending_address h.pending_port ∷ [],
)

abbrev pub redirected : Environment → OnSendToServer → OnSendToServer
redirected w p = record p { address = bytes "127.0.0.1"; port = w.server_port }

unfoldable pub on_item_database : Environment → Bytes → List Call
on_item_database w items_dat =
    if is_empty items_dat
    then []
    else if w.parsed items_dat
    then parse_items items_dat ∷ save_items items_dat ∷ []
    else parse_items items_dat ∷ []

-- The listener on the event; the hash of the packet is compared as a word of 32 bits.
unfoldable pub handle : Environment → Event → ConnectionHandler → ConnectionHandler × List Call
unfolding on_client_connect on_item_database
handle w client_connect h = on_client_connect h
handle w client_disconnect h = (h, if w.client_connected then disconnect_client ∷ [] else [])
handle w server_disconnect h = (h, if w.server_connected then disconnect_server ∷ [] else [])
handle w (on_send_to_server p) h = (
  record { pending_address = p.address; pending_port = p.port },
  write_to_server (redirected w p) ∷ [],
)
handle w (quit client_bound) h = (h, [])
handle w (quit server_bound) h = (h, disconnect_server ∷ disconnect_client_now ∷ [])
handle w (disconnect client_bound) h = (h, [])
handle w (disconnect server_bound) h = (h, disconnect_server_now ∷ disconnect_client_now ∷ [])
handle w (send_item_database_data client_bound items_dat) h = (h, on_item_database w items_dat)
handle w (send_item_database_data server_bound items_dat) h = (h, [])
handle w (on_super_main_start p) h =
    (h, if p.item_hash % 2 ^ 32 == w.cached_hash then load_items ∷ [] else [])

-- `evt->cancel()`
unfoldable pub cancels : Event → Bool
cancels (on_send_to_server p) = true
cancels _ = false

-- A session: each event with the world at its time.
unfoldable pub handle_all :
    List (Environment × Event) → ConnectionHandler → ConnectionHandler × List Call
unfolding handle
handle_all [] h = (h, [])
handle_all ((w, e) ∷ es) h =
    let (next, calls) = handle w e h in
    let (last, rest) = handle_all es next in (last, calls ++ rest)
