-- ===== src/Event.antt =====
-- event/event.hpp: PriorityEventDispatcher, in front of the dispatcher of eventpp.
pub mod Lists
pub mod Listeners
pub mod Order
pub mod Types
pub mod Casts
pub mod Scoped
use gtproxy.Prelude.{
  ℕ, Bool, true, false, ◌≡◌, ◌≢◌, ◌++◌, List, [], ◌∷◌, Option, none, some, ◌==◌, if◌then◌else◌,
}
use gtproxy.Prelude.Int.{ℤ, pos, negsuc, int_gt}

-- Priority, whose values are of int8_t.
abbrev pub highest : ℤ
highest = negsuc 127

abbrev pub normal : ℤ
normal = pos 0

-- A listener on the event and on what it changes; the flag is `canceled` when it returns. It is taken
-- not to add or to remove listeners.
abbrev pub Callback : Type 0 → Type 0
Callback S = S → S × Bool

-- The callbacks run one after the other, until the event is canceled.
unfoldable pub run : {S : Type 0} → List (Callback S) → S → S
run [] s = s
run (c ∷ cs) s = let (t, canceled) = c s in let rest = run cs t in if canceled then t else rest

-- `std::erase_if`
unfoldable pub erase_if {ℓ} : {A : Type ℓ} → (A → Bool) → List A → List A
erase_if p [] = []
erase_if p (x ∷ xs) = let rest = erase_if p xs in if p x then rest else x ∷ rest

-- The callbacks that eventpp keeps for one event, with the number that stands for a handle.
pub record CallbackList (S L : Type 0) : Type 0 where
  pub new_list : L
  pub append : Callback S → L → ℕ × L
  pub insert : Callback S → ℕ → L → ℕ × L
  pub remove : ℕ → L → Bool × L
  pub invoke : L → S → S
  pub listeners : L → List (ℕ × Callback S)

pub record PriorityEntry : Type 0 where
  pub priority : ℤ
  pub handle : ℕ

-- `handles_`, and the lists behind `dispatcher_`, for each event.
pub record Dispatcher (L : Type 0) : Type 0 where
  pub handles : ℕ → List PriorityEntry
  pub lists : ℕ → L

abbrev pub update {ℓ} : {A : Type ℓ} → ℕ → A → (ℕ → A) → ℕ → A
update k a f n = if n == k then a else f n

-- The loop of `appendListener`: the first entry behind the new one.
unfoldable pub first_above : ℤ → List PriorityEntry → Option ℕ
first_above priority [] = none
first_above priority (e ∷ es) =
    let rest = first_above priority es in if int_gt e.priority priority then some e.handle else rest

-- `entries.insert` at that entry, or `push_back`.
unfoldable pub insert_entry : ℤ → ℕ → List PriorityEntry → List PriorityEntry
insert_entry priority handle [] = record { priority = priority; handle = handle } ∷ []
insert_entry priority handle (e ∷ es) =
    let rest = insert_entry priority handle es in
    if int_gt e.priority priority
    then record { priority = priority; handle = handle } ∷ e ∷ es
    else e ∷ rest

module _ {S L : Type 0} (lib : CallbackList S L) where
  -- The call of eventpp: in front of an entry, or at the end.
  unfoldable pub add_callback : Option ℕ → Callback S → L → ℕ × L
  add_callback none callback l = lib.append callback l
  add_callback (some before) callback l = lib.insert callback before l

  unfoldable pub append_listener : ℕ → Callback S → ℤ → Dispatcher L → ℕ × Dispatcher L
  unfolding first_above insert_entry add_callback
  append_listener event callback priority d =
      let (handle, l) =
        add_callback (first_above priority (d.handles event)) callback (d.lists event) in
      (
        handle,
        record {
          handles = update event (insert_entry priority handle (d.handles event)) d.handles;
          lists = update event l d.lists;
        },
      )

  unfoldable pub prepend_listener : ℕ → Callback S → Dispatcher L → ℕ × Dispatcher L
  unfolding append_listener
  prepend_listener event callback d = append_listener event callback highest d

  unfoldable pub remove_listener : ℕ → ℕ → Dispatcher L → Bool × Dispatcher L
  unfolding erase_if
  remove_listener event handle d =
      let (removed, l) = lib.remove handle (d.lists event) in
      (
        removed,
        record {
          handles =
              update event (erase_if (λ (e : PriorityEntry). e.handle == handle) (d.handles event))
                d.handles;
          lists = update event l d.lists;
        },
      )

  unfoldable pub dispatch : ℕ → Dispatcher L → S → S
  dispatch event d s = lib.invoke (d.lists event) s
