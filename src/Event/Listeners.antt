-- ===== src/Event/Listeners.antt =====
-- event.hpp: the listeners of an event, and what is known of the lists of eventpp.
use gtproxy.Prelude.{
  ℕ, ◌≡◌, ◌≢◌, refl, sym, ap, true, false, ◌++◌, List, [], ◌∷◌, map, Option, none, some, ◌==◌,
  Bool-cases, inl, inr,
}
use gtproxy.Prelude.Int.{ℤ, int_gt, int_gt_chain, int_gt_asym}
use gtproxy.Event.{
  Callback, run, erase_if, CallbackList, PriorityEntry, Dispatcher, first_above, insert_entry,
}
use gtproxy.Event.Lists.{All-middle, All, Pairwise}

-- A listener as its caller sees it.
pub record Listener (S : Type 0) : Type 0 where
  pub priority : ℤ
  pub handle : ℕ
  pub callback : Callback S

abbrev pub entry : {S : Type 0} → Listener S → PriorityEntry
entry x = record { priority = x.priority; handle = x.handle }

abbrev pub pair : {S : Type 0} → Listener S → ℕ × Callback S
pair x = (x.handle, x.callback)

-- What the documentation of eventpp says of its lists.
pub record Documented {S L : Type 0} (lib : CallbackList S L) : Type 0 where
  pub listeners-new_list : lib.listeners lib.new_list ≡ []
  pub append_fresh :
      (c : Callback S) (l : L)
      → All (λ (p : ℕ × Callback S). (lib.append c l).0 ≢ p.0) (lib.listeners l)
  pub listeners-append :
      (c : Callback S) (l : L)
      → lib.listeners (lib.append c l).1 ≡ lib.listeners l ++ ((lib.append c l).0, c) ∷ []
  pub insert_fresh :
      (c : Callback S) (h : ℕ) (l : L)
      → All (λ (p : ℕ × Callback S). (lib.insert c h l).0 ≢ p.0) (lib.listeners l)
  pub listeners-insert :
      (c : Callback S) (h : ℕ) (l : L) (front behind : List (ℕ × Callback S)) (old : Callback S)
      → lib.listeners l ≡ front ++ (h, old) ∷ behind
      → All (λ (p : ℕ × Callback S). p.0 ≢ h) front
      → lib.listeners (lib.insert c h l).1 ≡ front ++ ((lib.insert c h l).0, c) ∷ (h, old) ∷ behind
  pub listeners-remove :
      (h : ℕ) (l : L)
      → lib.listeners (lib.remove h l).1
        ≡ erase_if (λ (p : ℕ × Callback S). p.0 == h) (lib.listeners l)
  pub invoke_lem :
      (l : L) (s : S) → lib.invoke l s ≡ run (map (λ (p : ℕ × Callback S). p.1) (lib.listeners l)) s

-- y may stand behind x.
abbrev pub InOrder : {S : Type 0} → Listener S → Listener S → Type 0
InOrder x y = (int_gt x.priority y.priority ≡ false) × (x.handle ≢ y.handle)

-- The listeners of the event, in this order: both lists of the dispatcher hold them.
pub record Represents {S L : Type 0} (lib : CallbackList S L) (d : Dispatcher L) (event : ℕ)
    (xs : List (Listener S)) : Type 0 where
  pub entries : d.handles event ≡ map entry xs
  pub callbacks : lib.listeners (d.lists event) ≡ map pair xs
  pub in_order : Pairwise InOrder xs

module _ {S : Type 0} where
  abbrev pub NotAbove : ℤ → Listener S → Type 0
  NotAbove p x = int_gt x.priority p ≡ false

  abbrev pub Above : ℤ → Listener S → Type 0
  Above p x = int_gt x.priority p ≡ true

  unfoldable pub handle_of : List (Listener S) → Option ℕ
  handle_of [] = none
  handle_of (x ∷ xs) = some x.handle

  Above-All :
      (p : ℤ) (x : Listener S) (xs : List (Listener S))
      → Above p x
      → All (InOrder x) xs
      → All (Above p) xs
  Above-All p x [] h k = tt
  Above-All p x (y ∷ ys) h k =
      (int_gt_chain x.priority p y.priority h k.0.0, Above-All p x ys h k.1)

  -- Where a listener with the priority goes.
  pub record Cut (p : ℤ) (xs : List (Listener S)) : Type 0 where
    pub front : List (Listener S)
    pub behind : List (Listener S)
    pub parts : xs ≡ front ++ behind
    pub low : All (NotAbove p) front
    pub high : All (Above p) behind
    pub first : first_above p (map entry xs) ≡ handle_of behind
    pub placed :
        (h : ℕ)
        → insert_entry p h (map entry xs)
          ≡ map entry front ++ record { priority = p; handle = h } ∷ map entry behind

  pub cut : (p : ℤ) (xs : List (Listener S)) → Pairwise InOrder xs → Cut p xs
  unfolding first_above insert_entry handle_of
  cut p [] h = record {
    front = [];
    behind = [];
    parts = refl;
    low = tt;
    high = tt;
    first = refl;
    placed = λ n. refl;
  }
  cut p (x ∷ xs) h = elim (Bool-cases (int_gt x.priority p)) [
    | inl e ↦ record {
      front = [];
      behind = x ∷ xs;
      parts = refl;
      low = tt;
      high = (e, Above-All p x xs e h.0);
      first = rw e refl;
      placed = λ n. rw e refl;
    }
    | inr e ↦
        (let c = cut p xs h.1 in
          record {
            front = x ∷ c.front;
            behind = c.behind;
            parts = ap (◌∷◌ x) c.parts;
            low = (e, c.low);
            high = c.high;
            first = rw e c.first;
            placed = λ n. rw e (ap (◌∷◌ (entry x)) (c.placed n));
          })
  ]

  pub map-append :
      {B : Type 0} (f : Listener S → B) (xs ys : List (Listener S))
      → map f (xs ++ ys) ≡ map f xs ++ map f ys
  map-append f [] ys = refl
  map-append f (x ∷ xs) ys = ap (◌∷◌ (f x)) (map-append f xs ys)

  pub other_handles :
      (front behind : List (Listener S)) (y : Listener S)
      → Pairwise InOrder (front ++ y ∷ behind)
      → All (λ (q : ℕ × Callback S). q.0 ≢ y.handle) (map pair front)
  other_handles [] behind y h = tt
  other_handles (x ∷ front) behind y h =
      ((All-middle (InOrder x) front behind y h.0).1, other_handles front behind y h.1)

  pub fresh_All :
      (h : ℕ) (xs : List (Listener S))
      → All (λ (q : ℕ × Callback S). h ≢ q.0) (map pair xs)
      → All (λ (x : Listener S). h ≢ x.handle) xs
  fresh_All h [] k = tt
  fresh_All h (x ∷ xs) k = (k.0, fresh_All h xs k.1)

module _ {S : Type 0} (x : Listener S) where
  pub before_All :
      (front behind : List (Listener S))
      → All (NotAbove x.priority) front
      → All (λ (a : Listener S). x.handle ≢ a.handle) (front ++ behind)
      → All (λ (a : Listener S). InOrder a x) front
  before_All [] behind low fresh = tt
  before_All (a ∷ front) behind low fresh =
      ((low.0, λ q. fresh.0 (sym q)), before_All front behind low.1 fresh.1)

  pub behind_All :
      (behind : List (Listener S))
      → All (Above x.priority) behind
      → All (λ (a : Listener S). x.handle ≢ a.handle) behind
      → All (InOrder x) behind
  behind_All [] high fresh = tt
  behind_All (a ∷ behind) high fresh =
      ((int_gt_asym a.priority x.priority high.0, fresh.0), behind_All behind high.1 fresh.1)
