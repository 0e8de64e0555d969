-- ===== src/Tests/Requests.antt =====
-- web_server.cpp and dns_resolver.cpp on a reply that names a server.
use gtproxy.Prelude.{
  if◌then◌else◌, ◌&&◌, ◌≡◌, refl, arith, true, false, ◌⊎◌, [], ◌∷◌, some, none, Bytes, bytes,
  str_eq,
}
use gtproxy.Prelude.Int.{pos}
use gtproxy.Utils.TextParse.{TextParse, Entry, get, parse, get_raw}
use gtproxy.Utils.TextParse.Numbers.{to_chars}
use gtproxy.Utils.TextParse.Clean.{plain}
use gtproxy.Utils.Network.{classify_host, is_valid_ip_address}
use gtproxy.Network.Dns.{Services, cloudflare, resolve_ip}
use gtproxy.Network.Dns.Answers.{IsAnswer, resolve_ip-IsAnswer}
use gtproxy.Core.WebServer.{
  WebServer, Environment, Reply, bar, server_data, redirected, on_client_connect, port_from_chars,
  no_port,
}
use gtproxy.Core.WebServer.Answers.{server_data-on_client_connect}

abbrev server_entry : Entry
server_entry = (bytes "server", bytes "213.179.209.168" ∷ [])

abbrev others : TextParse
others = (bytes "port", bytes "17091" ∷ []) ∷ (bytes "type", bytes "1" ∷ []) ∷ []

abbrev good : Reply
good = record { succeeded = true; status = 200; body = get_raw (server_entry ∷ others) bar [] }

abbrev world : Environment
world = record {
  address = bytes "www.growtopia1.com";
  resolve_ip = λ host. bytes "104.18.1.1";
  post = λ host. some good;
  server_port = pos 16999;
}

abbrev fresh : WebServer
fresh = record { pending_address = []; pending_port = no_port }

server_data-on_client_connect_example :
    (text : Bytes) × ((server_data world fresh).1
      ≡ record { status = none; content = some (text, bytes "text/html") })
    × (parse text bar ≡ redirected (pos 16999) (server_entry ∷ others))
    × (get (parse text bar) (bytes "server") (pos 0) ≡ bytes "127.0.0.1")
    × (get (parse text bar) (bytes "port") (pos 0) ≡ to_chars (pos 16999))
    × ((on_client_connect (server_data world fresh).0).1
        ≡ some (get (server_entry ∷ others) (bytes "server") (pos 0), 17091))
    × ((on_client_connect (on_client_connect (server_data world fresh).0).0).1 ≡ none)
unfolding port_from_chars get str_eq
server_data-on_client_connect_example =
    server_data-on_client_connect world fresh good server_entry others 17091 refl refl (refl, refl)
      refl
      (
        plain (bytes "server") (bytes "213.179.209.168") [] (λ e. cc) (omega arith) (omega arith),
        (
          plain (bytes "port") (bytes "17091") [] (λ e. cc) (omega arith) (omega arith),
          (plain (bytes "type") (bytes "1") [] (λ e. cc) (omega arith) (omega arith), tt),
        ),
      )
      refl (omega arith)

-- One host knows one query.
abbrev answers : Services
answers = record {
  http_get = λ host path.
      if str_eq host (bytes "cloudflare-dns.com")
        && str_eq path (bytes "/dns-query?name=a.b&type=A")
      then some (record { succeeded = true; status = 200; body = bytes "{}" })
      else none;
  read_response = λ body. some (record { status = 0; answer = bytes "1.2.3.4" ∷ [] });
}

resolve_ip-IsAnswer_example :
    ((is_valid_ip_address (bytes "a.b") ≡ true)
      × (resolve_ip answers cloudflare (bytes "a.b") ≡ bytes "a.b"))
    ⊎ ((is_valid_ip_address (bytes "a.b") ≡ false)
        × (IsAnswer answers cloudflare (bytes "a.b") (resolve_ip answers cloudflare (bytes "a.b"))
            ⊎ ((resolve_ip answers cloudflare (bytes "a.b") ≡ [])
                × ((ip : Bytes) → ¬ IsAnswer answers cloudflare (bytes "a.b") ip))))
resolve_ip-IsAnswer_example = resolve_ip-IsAnswer answers cloudflare (bytes "a.b")

resolved : resolve_ip answers cloudflare (bytes "a.b") ≡ bytes "1.2.3.4"
unfolding resolve_ip classify_host str_eq
resolved = refl
