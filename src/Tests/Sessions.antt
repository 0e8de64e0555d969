-- ===== src/Tests/Sessions.antt =====
-- connection_handler.cpp on a session with one redirection.
use gtproxy.Prelude.{◌+◌, ◌≤◌, ◌≡◌, arith, true, List, [], ◌∷◌, bytes}
use gtproxy.Packet.CallPackets.{OnSendToServer}
use gtproxy.Core.ConnectionHandler.{
  Event, client_connect, on_send_to_server, quit, client_bound, connect, Environment,
  ConnectionHandler, no_port, handle, handle_all,
}
use gtproxy.Core.ConnectionHandler.Redirects.{
  handle-redirect, count_connects, count_redirects, pending, count_connects-handle_all,
}

abbrev w : Environment
w = record {
  client_connected = true;
  server_connected = true;
  server_port = 17091;
  parsed = λ items_dat. true;
  cached_hash = 0;
}

abbrev sub_server : OnSendToServer
sub_server = record {
  port = 17124;
  token = 1;
  user = 2;
  address = bytes "213.179.209.168";
  door_id = [];
  uuid_token = [];
  login_mode = 1;
  username = bytes "ann";
}

abbrev idle : ConnectionHandler
idle = record { pending_address = []; pending_port = no_port }

abbrev between : List (Environment × Event)
between = (w, quit client_bound) ∷ []

handle-redirect_example :
    let waiting = (handle_all between (handle w (on_send_to_server sub_server) idle).0).0 in
    let connected = (handle w client_connect waiting).0 in
    ((handle w client_connect waiting).1 ≡ connect (bytes "213.179.209.168") 17124 ∷ [])
    × ((handle w client_connect (handle_all between connected).0).1 ≡ [])
handle-redirect_example =
    handle-redirect w w w sub_server between between idle (tt, tt) (tt, tt) (omega arith)

abbrev session : List (Environment × Event)
session = (w, on_send_to_server sub_server) ∷ (w, client_connect) ∷ (w, client_connect) ∷ []

count_connects-handle_all_example :
    count_connects (handle_all session idle).1 + pending (handle_all session idle).0
    ≤ count_redirects session + pending idle
count_connects-handle_all_example = count_connects-handle_all session idle
