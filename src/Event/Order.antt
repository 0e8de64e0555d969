-- ===== src/Event/Order.antt =====
-- event.hpp: what the operations of PriorityEventDispatcher do to the listeners.
use gtproxy.Prelude.{
  append-nil, ℕ, ◌≡◌, ◌≢◌, refl, sym, ap, ◌∙◌, arith, true, ◌++◌, List, [], ◌∷◌, map, Option, none,
  some, ◌==◌, Bool-cases, inl, inr, subst,
}
use gtproxy.Prelude.Int.{ℤ}
use gtproxy.Event.{
  Callback, run, erase_if, CallbackList, PriorityEntry, Dispatcher, update, first_above,
  insert_entry, add_callback, append_listener, remove_listener, dispatch,
}
use gtproxy.Event.Lists.{
  All-behind, All, Pairwise, Pairwise-insert, Pairwise-erase_if, map-erase_if,
}
use gtproxy.Event.Listeners.{
  Listener, entry, pair, Documented, InOrder, Represents, NotAbove, Above, handle_of, Cut, cut,
  map-append, other_handles, fresh_All, before_All, behind_All,
}

update_here {ℓ} : {A : Type ℓ} (k : ℕ) (a : A) (f : ℕ → A) → update k a f k ≡ a
update_here k a f = let same : (k == k) ≡ true = ground arith in rw same refl

run-cancel :
    {S : Type 0} (front behind : List (Listener S)) (x : Listener S) (s : S)
    → ((t : S) → (x.callback t).1 ≡ true)
    → run (map (λ (q : ℕ × Callback S). q.1) (map pair (front ++ x ∷ behind))) s
      ≡ run (map (λ (y : Listener S). y.callback) (front ++ x ∷ [])) s
unfolding run
run-cancel [] behind x s h = rw (h s) refl
run-cancel (y ∷ front) behind x s h = elim (Bool-cases (y.callback s).1) [
  | inl e ↦ rw e refl
  | inr e ↦ rw e (run-cancel front behind x (y.callback s).0 h)
]

module _ {S L : Type 0} (lib : CallbackList S L) (doc : Documented lib) where
  listeners-add_callback :
      (c : Callback S) (l : L) (front behind : List (Listener S)) (p : ℤ)
      → lib.listeners l ≡ map pair (front ++ behind)
      → Pairwise InOrder (front ++ behind)
      → lib.listeners (add_callback lib (handle_of behind) c l).1
        ≡ map pair (
            front
            ++ record {
              priority = p;
              handle = (add_callback lib (handle_of behind) c l).0;
              callback = c;
            }
              ∷ behind)
  unfolding add_callback handle_of
  listeners-add_callback c l front [] p e h =
      doc.listeners-append c l
      ∙ ap (λ (ps : List (ℕ × Callback S)). ps ++ ((lib.append c l).0, c) ∷ [])
          (e ∙ ap (map pair) (append-nil front))
      ∙ sym (map-append pair front _)
  listeners-add_callback c l front (y ∷ ys) p e h =
      doc.listeners-insert c y.handle l (map pair front) (map pair ys) y.callback
        (e ∙ map-append pair front (y ∷ ys)) (other_handles front ys y h)
      ∙ sym (map-append pair front _)

  add_callback_fresh :
      (c : Callback S) (l : L) (o : Option ℕ)
      → All (λ (q : ℕ × Callback S). (add_callback lib o c l).0 ≢ q.0) (lib.listeners l)
  unfolding add_callback
  add_callback_fresh c l none = doc.append_fresh c l
  add_callback_fresh c l (some h) = doc.insert_fresh c h l

  -- appendListener puts the new listener behind all whose priority is the same or comes first, and in
  -- front of all the others: what the event's listeners were, in two parts, is there as before around it.
  -- The order of priorities holds on, and no two listeners share a handle.
  pub append_listener-Represents :
      (d : Dispatcher L) (event : ℕ) (c : Callback S) (p : ℤ) (xs : List (Listener S))
      → Represents lib d event xs
      → (front : List (Listener S)) × (behind : List (Listener S)) × (xs ≡ front ++ behind)
        × All (NotAbove p) front
        × All (Above p) behind
        × Represents lib (append_listener lib event c p d).1 event (
            front
            ++ record { priority = p; handle = (append_listener lib event c p d).0; callback = c }
              ∷ behind)
  unfolding append_listener
  append_listener-Represents d event c p xs r = (
    k.front,
    k.behind,
    k.parts,
    k.low,
    k.high,
    record {
      entries =
          update_here event _ d.handles
          ∙ ap (insert_entry p added.0) r.entries
          ∙ k.placed added.0
          ∙ sym (map-append entry k.front _);
      callbacks =
          ap lib.listeners (update_here event added.1 d.lists)
          ∙ subst
              (λ (o : Option ℕ).
                lib.listeners (add_callback lib o c l).1
                ≡ map pair (
                    k.front
                    ++ record { priority = p; handle = (add_callback lib o c l).0; callback = c }
                      ∷ k.behind))
              (sym first) (listeners-add_callback c l k.front k.behind p callbacks in_order);
      in_order =
          Pairwise-insert InOrder k.front k.behind new (before_All new k.front k.behind k.low fresh)
            (behind_All new k.behind k.high (All-behind _ k.front k.behind fresh)) in_order;
    },
  )
    where
      k : Cut p xs
      k = cut p xs r.in_order

      l : L
      l = d.lists event

      added : ℕ × L
      added = add_callback lib (first_above p (d.handles event)) c l

      new : Listener S
      new = record { priority = p; handle = added.0; callback = c }

      first : first_above p (d.handles event) ≡ handle_of k.behind
      first = ap (first_above p) r.entries ∙ k.first

      callbacks : lib.listeners l ≡ map pair (k.front ++ k.behind)
      callbacks = r.callbacks ∙ ap (map pair) k.parts

      in_order : Pairwise InOrder (k.front ++ k.behind)
      in_order = subst (Pairwise InOrder) k.parts r.in_order

      fresh : All (λ (a : Listener S). added.0 ≢ a.handle) (k.front ++ k.behind)
      fresh = fresh_All added.0 (k.front ++ k.behind) (
          subst (All (λ (q : ℕ × Callback S). added.0 ≢ q.0)) callbacks
            (add_callback_fresh c l (first_above p (d.handles event))))

  -- removeListener takes the listener with the handle away, if the event has it, and leaves the others as
  -- they were and in their order.
  pub remove_listener-Represents :
      (d : Dispatcher L) (event h : ℕ) (xs : List (Listener S))
      → Represents lib d event xs
      → Represents lib
          (remove_listener lib event h d).1
          event
          (erase_if (λ (x : Listener S). x.handle == h) xs)
  unfolding remove_listener
  remove_listener-Represents d event h xs r = record {
    entries =
        update_here event _ d.handles
        ∙ ap (erase_if (λ (e : PriorityEntry). e.handle == h)) r.entries
        ∙ sym (map-erase_if entry (λ (e : PriorityEntry). e.handle == h) xs);
    callbacks =
        ap lib.listeners (update_here event _ d.lists)
        ∙ doc.listeners-remove h (d.lists event)
        ∙ ap (erase_if (λ (q : ℕ × Callback S). q.0 == h)) r.callbacks
        ∙ sym (map-erase_if pair (λ (q : ℕ × Callback S). q.0 == h) xs);
    in_order = Pairwise-erase_if InOrder (λ (x : Listener S). x.handle == h) xs r.in_order;
  }

  -- A listener that cancels whatever happens is the last that a dispatch calls: the listeners in front of it
  -- run in their order, until one cancels, and those behind it never.
  pub dispatch-cancel :
      (d : Dispatcher L) (event : ℕ) (front behind : List (Listener S)) (x : Listener S) (s : S)
      → Represents lib d event (front ++ x ∷ behind)
      → ((t : S) → (x.callback t).1 ≡ true)
      → dispatch lib event d s ≡ run (map (λ (y : Listener S). y.callback) (front ++ x ∷ [])) s
  unfolding dispatch
  dispatch-cancel d event front behind x s r h =
      doc.invoke_lem (d.lists event) s
      ∙ ap (λ (ps : List (ℕ × Callback S)). run (map (λ (q : ℕ × Callback S). q.1) ps) s)
          r.callbacks
      ∙ run-cancel front behind x s h
