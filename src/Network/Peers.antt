-- ===== src/Network/Peers.antt =====
-- client.cpp and server.cpp: which peer an end holds.
use gtproxy.Prelude.{
  ℕ, ◌≡◌, ◌≢◌, refl, sym, ap, ◌∙◌, subst, arith, Bool, true, false, List, [], ◌∷◌, Option, none,
  some, some-injective, Bytes, length, inl, inr, Bool-cases, Option-cases, ◌⊎◌, if◌then◌else◌,
}
use gtproxy.Utils.Zlib.{Inflate}
use gtproxy.Packet.Decoder.{decode}
use gtproxy.Network.{
  dispatch_event, NetEvent, type_of, Enet, Side, client, server, Session, Listeners,
  connection_event, connect_type, disconnect_type, HostEvent, enet_connect, enet_receive,
  enet_disconnect, enet_none, end_of, set_host, set_peer, on_connect, on_receive, on_disconnect,
  keep_peer, disconnect, is_peer, is_malformed, receive_decoded,
}
use gtproxy.Network.Loop.{handle_event, handle_events}
use gtproxy.Network.Effects.{
  AllKeep, Tells, tells_connect, tells_disconnect, dispatch_event-Rel, receive_decoded-Rel,
}

-- What an event may make of the peer that an end holds: the peer that connects, or none where a
-- listener lets it go; none where that peer disconnects; and where another one disconnects, or sends,
-- nothing changes.
abbrev pub Next : HostEvent → (before after : Option ℕ) → Type 0
Next (enet_connect peer) p q = (q ≡ none) ⊎ (q ≡ some peer)
Next (enet_receive peer bytes) p q = (q ≡ p) ⊎ ((p ≡ some peer) × (q ≡ none))
Next (enet_disconnect peer) p q = ((p ≡ some peer) × (q ≡ none)) ⊎ ((p ≢ some peer) × (q ≡ p))
Next enet_none p q = q ≡ p

-- From the peer before the events to the one after them.
abbrev pub Peers : List HostEvent → (before after : Option ℕ) → Type 0
Peers [] p q = q ≡ p
Peers (e ∷ es) p q = (r : Option ℕ) × Next e p r × Peers es r q

abbrev pub peer_of : {H R : Type 0} → Side → Session H R → Option ℕ
peer_of side s = (end_of side s).peer

-- The end lets its peer go, or keeps it.
abbrev pub LetsGo : {H R : Type 0} → Side → Session H R → Session H R → Type 0
LetsGo side s t = (peer_of side t ≡ none) ⊎ (peer_of side t ≡ peer_of side s)

LetsGo-trans :
    {H R : Type 0} (side : Side) (s t u : Session H R)
    → LetsGo side s t
    → LetsGo side t u
    → LetsGo side s u
LetsGo-trans side s t u h (inl k) = inl k
LetsGo-trans side s t u (inl h) (inr k) = inl (k ∙ h)
LetsGo-trans side s t u (inr h) (inr k) = inr (k ∙ h)

LetsGo-same :
    {H R : Type 0} (side : Side) (p : Option ℕ) (s t : Session H R)
    → peer_of side s ≡ p
    → LetsGo side s t
    → (peer_of side t ≡ none) ⊎ (peer_of side t ≡ p)
LetsGo-same side p s t h (inl k) = inl k
LetsGo-same side p s t h (inr k) = inr (k ∙ h)

is_peer_lem : (peer : ℕ) (p : Option ℕ) → is_peer peer p ≡ true → p ≡ some peer
unfolding is_peer
is_peer_lem peer none h = absurd (ground arith)
is_peer_lem peer (some q) h = let same : peer ≡ q = ground arith in ap some (sym same)

is_peer_other : (peer : ℕ) (p : Option ℕ) → is_peer peer p ≡ false → p ≢ some peer
unfolding is_peer
is_peer_other peer p h e =
    let same : is_peer peer (some peer) ≡ false =
      subst (λ (q : Option ℕ). is_peer peer q ≡ false) e h in
    absurd (ground arith)

keep_peer-peer :
    {H R : Type 0} (enet : Enet H) (side : Side) (peer : ℕ) (s : Session H R)
    → (end_of side (keep_peer enet side peer s)).peer ≡ some peer
unfolding keep_peer
keep_peer-peer enet client peer s = refl
keep_peer-peer enet server peer s = refl

set_peer-peer :
    {H R : Type 0} (side : Side) (p : Option ℕ) (s : Session H R)
    → (end_of side (set_peer side p s)).peer ≡ p
set_peer-peer client p s = refl
set_peer-peer server p s = refl

set_host-peer :
    {H R : Type 0} (side : Side) (h : H) (s : Session H R)
    → (end_of side (set_host side h s)).peer ≡ (end_of side s).peer
set_host-peer client h s = refl
set_host-peer server h s = refl

disconnect-peer :
    {H R : Type 0} (enet : Enet H) (side : Side) (s : Session H R)
    → (end_of side (disconnect enet side s)).peer ≡ (end_of side s).peer
unfolding disconnect
disconnect-peer enet side s = go (end_of side s).peer
  where
    go :
        (p : Option ℕ)
        → (end_of side (elim p [
          | none ↦ s
          | some q ↦ set_host side (enet.peer_disconnect q (end_of side s).host) s
        ])).peer
          ≡ (end_of side s).peer
    go none = refl
    go (some q) = set_host-peer side (enet.peer_disconnect q (end_of side s).host) s

gone :
    {H R : Type 0} (side : Side) (s t : Session H R)
    → peer_of side s ≡ none
    → LetsGo side s t
    → peer_of side t ≡ none
gone side s t h (inl k) = k
gone side s t h (inr k) = k ∙ h

module _ {H R : Type 0} (enet : Enet H) (listeners : Listeners H R) (breaks : ℕ → Bool)
    (inflate : Inflate) (print : Bool) (side : Side)
    (keep : (e : NetEvent) → Tells side e → AllKeep (LetsGo side) e (listeners (type_of e))) where
  told :
      (e : NetEvent)
      → Tells side e
      → (s : Session H R) → LetsGo side s (dispatch_event listeners e s).1
  told = dispatch_event-Rel (LetsGo side) (λ s. inr refl) (LetsGo-trans side) side listeners keep

  Next-on_connect :
      (peer : ℕ) (s : Session H R)
      → Next
          (enet_connect peer)
          (peer_of side s)
          (peer_of side (on_connect enet listeners side peer s))
  unfolding on_connect
  Next-on_connect peer s =
      LetsGo-same side (some peer) (keep_peer enet side peer s) _ (keep_peer-peer enet side peer s)
        (told (connection_event (connect_type side)) tells_connect (keep_peer enet side peer s))

  Next-on_disconnect :
      (peer : ℕ) (s : Session H R)
      → Next
          (enet_disconnect peer)
          (peer_of side s)
          (peer_of side (on_disconnect enet listeners side peer s))
  unfolding on_disconnect
  Next-on_disconnect peer s = elim (Bool-cases (is_peer peer (peer_of side s))) [
    | inl e ↦ rw e (
        inl (
          is_peer_lem peer (peer_of side s) e,
          gone side (set_peer side none s) _ (set_peer-peer side none s) (
              told (connection_event (disconnect_type side)) tells_disconnect
                (set_peer side none s)),
        ))
    | inr e ↦ rw e (inr (is_peer_other peer (peer_of side s) e, refl))
  ]

  let_go :
      (peer : ℕ) (bytes : Bytes) (s u : Session H R)
      → peer_of side s ≡ some peer
      → LetsGo side s u
      → Next (enet_receive peer bytes) (peer_of side s) (peer_of side u)
  let_go peer bytes s u from (inl k) = inr (from, k)
  let_go peer bytes s u from (inr k) = inl k

  Next-on_receive :
      (peer : ℕ) (bytes : Bytes) (s u : Session H R)
      → on_receive enet listeners breaks inflate print side peer bytes s ≡ some u
      → Next (enet_receive peer bytes) (peer_of side s) (peer_of side u)
  unfolding on_receive
  Next-on_receive peer bytes s u =
      go (is_peer peer (peer_of side s)) (is_malformed side (length bytes))
        (is_peer_lem peer (peer_of side s))
    where
      go :
          (from malformed : Bool)
          → (from ≡ true → peer_of side s ≡ some peer)
          → (if from
              then (if malformed
                  then some (disconnect enet side s)
                  else receive_decoded listeners side bytes (decode breaks inflate print bytes) s)
              else some s)
            ≡ some u
          → Next (enet_receive peer bytes) (peer_of side s) (peer_of side u)
      go true true f e = inl (
          sym (ap (λ (t : Session H R). peer_of side t) (some-injective e))
          ∙ disconnect-peer enet side s)
      go true false f e = let_go peer bytes s u (f refl) (
          receive_decoded-Rel (LetsGo side) (λ s. inr refl) (LetsGo-trans side) side listeners keep
            bytes (decode breaks inflate print bytes) s u e)
      go false malformed f e =
          inl (sym (ap (λ (t : Session H R). peer_of side t) (some-injective e)))

  Next-handle_event :
      (e : HostEvent) (s t : Session H R)
      → handle_event enet listeners breaks inflate print side e s ≡ some t
      → Next e (peer_of side s) (peer_of side t)
  unfolding handle_event
  Next-handle_event (enet_connect peer) s t h =
      subst (λ (u : Session H R). Next (enet_connect peer) (peer_of side s) (peer_of side u))
        (some-injective h) (Next-on_connect peer s)
  Next-handle_event (enet_receive peer bytes) s t h = Next-on_receive peer bytes s t h
  Next-handle_event (enet_disconnect peer) s t h =
      subst (λ (u : Session H R). Next (enet_disconnect peer) (peer_of side s) (peer_of side u))
        (some-injective h) (Next-on_disconnect peer s)
  Next-handle_event enet_none s t h =
      sym (ap (λ (u : Session H R). peer_of side u) (some-injective h))

  -- After any events of ENet that the code handles without reading out of bounds, the peer that an
  -- end holds has come from the one before them event by event: a peer that connects is held, or
  -- none; the peer that is held is let go when it disconnects, and kept or let go when it sends;
  -- another one that sends or disconnects changes nothing. Each listener on the events that this
  -- end tells keeps the peer of this end or lets it go.
  pub handle_events-Peers :
      (es : List HostEvent) (s u : Session H R)
      → handle_events enet listeners breaks inflate print side es s ≡ some u
      → Peers es (peer_of side s) (peer_of side u)
  unfolding handle_events
  handle_events-Peers [] s u e = sym (ap (λ (t : Session H R). peer_of side t) (some-injective e))
  handle_events-Peers (x ∷ es) s u e =
      elim (Option-cases (handle_event enet listeners breaks inflate print side x s)) [
        | inl k ↦
            let impossible : Path (Option (Session H R)) none (some u) = sym (ap next k) ∙ e in
            absurd (ground arith)
        | inr (t, k) ↦ (
          peer_of side t,
          Next-handle_event x s t k,
          handle_events-Peers es t u (sym (ap next k) ∙ e),
        )
      ]
    where
      next : Option (Session H R) → Option (Session H R)
      next o = elim o [
        | none ↦ none
        | some t ↦ handle_events enet listeners breaks inflate print side es t
      ]
