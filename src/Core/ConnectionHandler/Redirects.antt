-- ===== src/Core/ConnectionHandler/Redirects.antt =====
-- connection_handler.cpp: the connections that a session makes.
use gtproxy.Prelude.{
  ℕ, suc, ◌+◌, ◌≤◌, ◌≡◌, ◌≢◌, refl, ap, ◌∙◌, arith, Bool, true, false, List, [], ◌∷◌, ◌++◌, ◌==◌,
  if◌then◌else◌, Bool-cases, inl, inr,
}
use gtproxy.Packet.CallPackets.{OnSendToServer}
use gtproxy.Core.ConnectionHandler.{
  client_bound, server_bound, Event, client_connect, client_disconnect, server_disconnect,
  on_send_to_server, quit, disconnect, send_item_database_data, on_super_main_start, Call, connect,
  Environment, ConnectionHandler, no_port, on_client_connect, on_item_database, handle, handle_all,
}

-- An event that has nothing to do with the pending server.
abbrev IsOther : Event → Type 0
IsOther client_connect = ⊥
IsOther (on_send_to_server p) = ⊥
IsOther _ = Unit

abbrev AllOther : List (Environment × Event) → Type 0
AllOther [] = Unit
AllOther ((w, e) ∷ es) = IsOther e × AllOther es

handle-other :
    (w : Environment) (e : Event) (h : ConnectionHandler) → IsOther e → (handle w e h).0 ≡ h
unfolding handle
handle-other w client_connect h o = absurd o
handle-other w client_disconnect h o = refl
handle-other w server_disconnect h o = refl
handle-other w (on_send_to_server p) h o = absurd o
handle-other w (quit client_bound) h o = refl
handle-other w (quit server_bound) h o = refl
handle-other w (disconnect client_bound) h o = refl
handle-other w (disconnect server_bound) h o = refl
handle-other w (send_item_database_data client_bound items_dat) h o = refl
handle-other w (send_item_database_data server_bound items_dat) h o = refl
handle-other w (on_super_main_start p) h o = refl

handle_all-other :
    (es : List (Environment × Event)) (h : ConnectionHandler)
    → AllOther es
    → (handle_all es h).0 ≡ h
unfolding handle_all
handle_all-other [] h o = refl
handle_all-other ((w, e) ∷ es) h o =
    ap (λ (k : ConnectionHandler). (handle_all es k).0) (handle-other w e h o.0)
    ∙ handle_all-other es h o.1

on_client_connect-known :
    (h : ConnectionHandler)
    → h.pending_port ≢ no_port
    → on_client_connect h ≡ (
      record { pending_address = []; pending_port = no_port },
      connect h.pending_address h.pending_port ∷ [],
    )
unfolding on_client_connect
on_client_connect-known h ne =
    let other : (h.pending_port == no_port) ≡ false = ground arith in rw other refl

-- When a client connects, the proxy connects to the address and the port of the last OnSendToServer that
-- was handled, if the port is not 65535 and no client has connected since; a client that connects behind
-- it makes no connection.
pub handle-redirect :
    (w v u : Environment) (p : OnSendToServer) (es fs : List (Environment × Event))
    (h : ConnectionHandler)
    → AllOther es
    → AllOther fs
    → p.port ≢ no_port
    → let waiting = (handle_all es (handle w (on_send_to_server p) h).0).0 in
      let connected = (handle v client_connect waiting).0 in
      ((handle v client_connect waiting).1 ≡ connect p.address p.port ∷ [])
      × ((handle u client_connect (handle_all fs connected).0).1 ≡ [])
unfolding handle on_client_connect
handle-redirect w v u p es fs h o n ne =
    let known = on_client_connect-known redirect ne in
    let waits : (handle_all es redirect).0 ≡ redirect = handle_all-other es redirect o in
    (
      ap (λ (k : ConnectionHandler). (on_client_connect k).1) waits
          ∙ ap (λ (r : ConnectionHandler × List Call). r.1) known,
      ap
            (λ (k : ConnectionHandler).
              (on_client_connect (handle_all fs (on_client_connect k).0).0).1)
            waits
          ∙ ap (λ (r : ConnectionHandler × List Call). (on_client_connect (handle_all fs r.0).0).1)
              known
          ∙ ap (λ (k : ConnectionHandler). (on_client_connect k).1) (handle_all-other fs idle n),
    )
  where
    redirect : ConnectionHandler
    redirect = record { pending_address = p.address; pending_port = p.port }

    idle : ConnectionHandler
    idle = record { pending_address = []; pending_port = no_port }

abbrev is_connect : Call → Bool
is_connect (connect address port) = true
is_connect _ = false

unfoldable pub count_connects : List Call → ℕ
count_connects [] = 0
count_connects (c ∷ cs) = let rest = count_connects cs in if is_connect c then suc rest else rest

abbrev redirects : Event → ℕ
redirects (on_send_to_server p) = 1
redirects e = 0

unfoldable pub count_redirects : List (Environment × Event) → ℕ
count_redirects [] = 0
count_redirects ((w, e) ∷ es) = redirects e + count_redirects es

-- 1 if a server is pending.
unfoldable pub pending : ConnectionHandler → ℕ
pending h = if h.pending_port == no_port then 0 else 1

count_connects-append :
    (cs ds : List Call) → count_connects (cs ++ ds) ≡ count_connects cs + count_connects ds
unfolding count_connects
count_connects-append [] ds = omega arith
count_connects-append (c ∷ cs) ds = elim (Bool-cases (is_connect c)) [
  | inl e ↦ rw e (omega (arith, count_connects-append cs ds))
  | inr e ↦ rw e (count_connects-append cs ds)
]

count_connects-handle :
    (w : Environment) (e : Event) (h : ConnectionHandler)
    → count_connects (handle w e h).1 + pending (handle w e h).0 ≤ redirects e + pending h
unfolding handle count_connects pending on_client_connect on_item_database
count_connects-handle w client_connect h = ground arith
count_connects-handle w client_disconnect h = ground arith
count_connects-handle w server_disconnect h = ground arith
count_connects-handle w (on_send_to_server p) h = ground arith
count_connects-handle w (quit client_bound) h = ground arith
count_connects-handle w (quit server_bound) h = ground arith
count_connects-handle w (disconnect client_bound) h = ground arith
count_connects-handle w (disconnect server_bound) h = ground arith
count_connects-handle w (send_item_database_data client_bound items_dat) h = ground arith
count_connects-handle w (send_item_database_data server_bound items_dat) h = ground arith
count_connects-handle w (on_super_main_start p) h = ground arith

-- Over any events, the calls of `connect` that this handler makes are at most as many as the
-- OnSendToServer packets that it handled, and one more if a server was pending at its start; a server
-- that is pending at the end is one less. The connections that the web server makes are not counted.
pub count_connects-handle_all :
    (es : List (Environment × Event)) (h : ConnectionHandler)
    → count_connects (handle_all es h).1 + pending (handle_all es h).0
      ≤ count_redirects es + pending h
unfolding handle_all count_redirects
count_connects-handle_all [] h = unfold count_connects in omega arith
count_connects-handle_all ((w, e) ∷ es) h = omega (
  arith,
  count_connects-append (handle w e h).1 (handle_all es (handle w e h).0).1,
  count_connects-handle w e h,
  count_connects-handle_all es (handle w e h).0,
)
