-- ===== src/Core/WebServer/Answers.antt =====
-- web_server.cpp: what the game is told, and where the proxy then connects.
use gtproxy.Prelude.{
  ℕ, ◌≡◌, ◌≢◌, refl, sym, ap, ◌∙◌, arith, Bool, true, false, List, [], ◌∷◌, Option, none, some,
  Bytes, bytes, str_eq, ◌==◌, if◌then◌else◌,
}
use gtproxy.Prelude.Int.{ℤ, pos}
use gtproxy.Utils.TextParse.{Entry, TextParse, parse, find, get, set_values, get_raw, is_empty}
use gtproxy.Utils.TextParse.Numbers.{to_chars}
use gtproxy.Utils.TextParse.Entries.{find-set_values}
use gtproxy.Utils.TextParse.Clean.{plain, to_chars-IsClean}
use gtproxy.Utils.TextParse.RoundTrip.{IsPlain, AllPlain, parse-get_raw}
use gtproxy.Core.WebServer.{
  WebServer, Environment, Reply, Response, no_port, bar, port_from_chars, redirected,
  answer_entries, answer_body, answer_reply, server_data, on_client_connect,
}

AllPlain-set_values :
    (d : ℕ) (key : Bytes) (values : List Bytes) (es : TextParse)
    → IsPlain d (key, values)
    → AllPlain d es
    → AllPlain d (set_values key values es)
unfolding set_values
AllPlain-set_values d key values [] p h = (p, tt)
AllPlain-set_values d key values ((k, v) ∷ es) p h =
    go (str_eq k key) (AllPlain-set_values d key values es p h.1)
  where
    go :
        (b : Bool)
        → AllPlain d (set_values key values es)
        → AllPlain d (if b then (k, values) ∷ es else (k, v) ∷ set_values key values es)
    go true r = (
      record {
        key_ne_nil = h.0.key_ne_nil;
        values_ne_nil = p.values_ne_nil;
        key_lacks = h.0.key_lacks;
        values_lack = p.values_lack;
      },
      h.1,
    )
    go false r = (h.0, r)

port_entry-IsPlain : (port : ℤ) → IsPlain b'|' (bytes "port", to_chars port ∷ [])
port_entry-IsPlain port =
    plain (bytes "port") (to_chars port) [] (λ e. cc) (omega arith) (to_chars-IsClean port, tt)

redirected-AllPlain :
    (port : ℤ) (es : TextParse) → AllPlain b'|' es → AllPlain b'|' (redirected port es)
unfolding redirected
redirected-AllPlain port es h =
    AllPlain-set_values b'|' (bytes "type2") (bytes "1" ∷ []) _
      (record {
        key_ne_nil = λ e. cc;
        values_ne_nil = λ e. cc;
        key_lacks = omega arith;
        values_lack = omega arith;
      })
      (AllPlain-set_values b'|' (bytes "port") (to_chars port ∷ []) _ (port_entry-IsPlain port) (
        AllPlain-set_values b'|' (bytes "server") (bytes "127.0.0.1" ∷ []) es
          (record {
            key_ne_nil = λ e. cc;
            values_ne_nil = λ e. cc;
            key_lacks = omega arith;
            values_lack = omega arith;
          })
          h))

get-find :
    (es : TextParse) (key value : Bytes) (values : List Bytes)
    → find key es ≡ some (value ∷ values)
    → get es key (pos 0) ≡ value
unfolding get
get-find es key value values h = rw (get, h) refl

-- The keys that are replaced.
find-redirected :
    (port : ℤ) (es : TextParse)
    → (find (bytes "server") (redirected port es) ≡ some (bytes "127.0.0.1" ∷ []))
      × (find (bytes "port") (redirected port es) ≡ some (to_chars port ∷ []))
unfolding redirected str_eq
find-redirected port es =
    let set_server = set_values (bytes "server") (bytes "127.0.0.1" ∷ []) es in
    let set_port = set_values (bytes "port") (to_chars port ∷ []) set_server in
    (
      find-set_values (bytes "type2") (bytes "server") (bytes "1" ∷ []) set_port
          ∙ find-set_values (bytes "port") (bytes "server") (to_chars port ∷ []) set_server
          ∙ find-set_values (bytes "server") (bytes "server") (bytes "127.0.0.1" ∷ []) es,
      find-set_values (bytes "type2") (bytes "port") (bytes "1" ∷ []) set_port
          ∙ find-set_values (bytes "port") (bytes "port") (to_chars port ∷ []) set_server,
    )

-- What the game is told.
abbrev told : Environment → TextParse → Response
told w entries = record {
  status = none;
  content = some (get_raw (redirected w.server_port entries) bar [], bytes "text/html");
}

abbrev kept : TextParse → ℕ → WebServer
kept entries port = record {
  pending_address = get entries (bytes "server") (pos 0);
  pending_port = port;
}

answer_entries-port :
    (w : Environment) (entries : TextParse) (s : WebServer) (port : ℕ)
    → port_from_chars (get entries (bytes "port") (pos 0)) ≡ some port
    → answer_entries w entries s ≡ (kept entries port, told w entries)
unfolding answer_entries
answer_entries-port w entries s port k =
    ap
      (λ (o : Option ℕ). elim o [
        | none ↦ (
          record s { pending_address = get entries (bytes "server") (pos 0) },
          record { status = some 500; content = none },
        )
        | some q ↦ (kept entries q, told w entries)
      ])
      k

answer_body-entries :
    (w : Environment) (s : WebServer) (e : Entry) (es : TextParse) (body : Bytes)
    → parse body bar ≡ e ∷ es
    → answer_body w body s ≡ answer_entries w (e ∷ es) s
unfolding answer_body
answer_body-entries w s e es [] q = absurd (cc (sym q ∙ unfold parse in refl))
answer_body-entries w s e es (c ∷ body) q =
    ap
      (λ (l : TextParse). elim l [
        | [] ↦ (s, record { status = some 500; content = none })
        | f ∷ fs ↦ answer_entries w (f ∷ fs) s
      ])
      q

server_data-entries :
    (w : Environment) (s : WebServer) (reply : Reply) (e : Entry) (es : TextParse) (port : ℕ)
    → is_empty (w.resolve_ip w.address) ≡ false
    → w.post (w.resolve_ip w.address) ≡ some reply
    → (reply.succeeded ≡ true) × (reply.status ≡ 200)
    → parse reply.body bar ≡ e ∷ es
    → port_from_chars (get (e ∷ es) (bytes "port") (pos 0)) ≡ some port
    → server_data w s ≡ (kept (e ∷ es) port, told w (e ∷ es))
unfolding server_data answer_reply
server_data-entries w s reply e es port r p ok q k =
    rw (r, p, ok.0, ok.1)
      (answer_body-entries w s e es reply.body q ∙ answer_entries-port w (e ∷ es) s port k)

-- The answer to a request of the game, where the address is resolved and the server replies with
-- entries that name a port: the game is told to connect to 127.0.0.1 and the configured port, in a
-- text that it reads back entry by entry, and the proxy, when the game then connects, connects to
-- the address and the port that the server had named, once, unless that port is 65535. Every
-- entry has a key that is not empty and a value, and holds no bar and no newline.
pub server_data-on_client_connect :
    (w : Environment) (s : WebServer) (reply : Reply) (e : Entry) (es : TextParse) (port : ℕ)
    → is_empty (w.resolve_ip w.address) ≡ false
    → w.post (w.resolve_ip w.address) ≡ some reply
    → (reply.succeeded ≡ true) × (reply.status ≡ 200)
    → reply.body ≡ get_raw (e ∷ es) bar []
    → AllPlain b'|' (e ∷ es)
    → port_from_chars (get (e ∷ es) (bytes "port") (pos 0)) ≡ some port
    → port ≢ no_port
    → (text : Bytes) × ((server_data w s).1
        ≡ record { status = none; content = some (text, bytes "text/html") })
      × (parse text bar ≡ redirected w.server_port (e ∷ es))
      × (get (parse text bar) (bytes "server") (pos 0) ≡ bytes "127.0.0.1")
      × (get (parse text bar) (bytes "port") (pos 0) ≡ to_chars w.server_port)
      × ((on_client_connect (server_data w s).0).1
          ≡ some (get (e ∷ es) (bytes "server") (pos 0), port))
      × ((on_client_connect (on_client_connect (server_data w s).0).0).1 ≡ none)
unfolding on_client_connect
server_data-on_client_connect w s reply e es port r p ok b h k ne =
    let read =
      ap (λ (l : Bytes). parse l bar) b ∙ parse-get_raw b'|' (e ∷ es) (λ q. omega arith) h in
    let answer = server_data-entries w s reply e es port r p ok read k in
    let back =
      parse-get_raw b'|' (redirected w.server_port (e ∷ es)) (λ q. omega arith)
        (redirected-AllPlain w.server_port (e ∷ es) h) in
    let replaced = find-redirected w.server_port (e ∷ es) in
    let other : (port == no_port) ≡ false = ground arith in
    (
      get_raw (redirected w.server_port (e ∷ es)) bar [],
      ap (λ (x : WebServer × Response). x.1) answer,
      back,
      ap (λ (l : TextParse). get l (bytes "server") (pos 0)) back
          ∙ get-find (redirected w.server_port (e ∷ es)) (bytes "server") _ [] replaced.0,
      ap (λ (l : TextParse). get l (bytes "port") (pos 0)) back
          ∙ get-find (redirected w.server_port (e ∷ es)) (bytes "port") _ [] replaced.1,
      ap (λ (x : WebServer × Response). (on_client_connect x.0).1) answer ∙ rw other refl,
      ap (λ (x : WebServer × Response). (on_client_connect (on_client_connect x.0).0).1) answer
          ∙ rw other refl,
    )
