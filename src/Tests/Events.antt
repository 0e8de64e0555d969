-- ===== src/Tests/Events.antt =====
-- event.hpp over lists that keep the callbacks themselves.
use gtproxy.Prelude.{
  ℕ, suc, ◌+◌, ◌<◌, ◌≤◌, ◌≡◌, ◌≢◌, refl, ap, ◌∙◌, arith, true, false, Bool, List, [], ◌∷◌, ◌++◌,
  map, ◌==◌, if◌then◌else◌,
}
use gtproxy.Prelude.Int.{ℤ, int_gt}
use gtproxy.Event.{
  Callback, run, erase_if, CallbackList, Dispatcher, append_listener, highest, normal,
  prepend_listener,
}
use gtproxy.Event.Lists.{All}
use gtproxy.Event.Listeners.{Listener, Documented, Represents, entry, pair, NotAbove, Above}
use gtproxy.Event.Order.{append_listener-Represents}

abbrev Kept : Type 0
Kept = List (ℕ × Callback ℕ)

-- More than every handle in use.
unused : Kept → ℕ
unused [] = 1
unused ((h, c) ∷ l) = h + unused l

insert_before : ℕ → ℕ × Callback ℕ → Kept → Kept
insert_before h x [] = x ∷ []
insert_before h x (y ∷ l) =
    let rest = insert_before h x l in if y.0 == h then x ∷ y ∷ l else y ∷ rest

has : ℕ → Kept → Bool
has h [] = false
has h (y ∷ l) = let rest = has h l in if y.0 == h then true else rest

abbrev kept : CallbackList ℕ Kept
kept = record {
  new_list = [];
  append = λ c l. (unused l, l ++ (unused l, c) ∷ []);
  insert = λ c h l. (unused l, insert_before h (unused l, c) l);
  remove = λ h l. (has h l, erase_if (λ (p : ℕ × Callback ℕ). p.0 == h) l);
  invoke = λ l s. run (map (λ (p : ℕ × Callback ℕ). p.1) l) s;
  listeners = λ l. l;
}

unused_positive : (l : Kept) → 0 < unused l
unfolding unused
unused_positive [] = omega arith
unused_positive ((h, c) ∷ l) = omega (arith, unused_positive l)

unused_above : (n : ℕ) (l : Kept) → unused l ≤ n → All (λ (p : ℕ × Callback ℕ). n ≢ p.0) l
unfolding unused
unused_above n [] h = tt
unused_above n ((k, c) ∷ l) h =
    (λ e. omega (arith, e, unused_positive l), unused_above n l (omega arith))

insert_before_lem :
    (h : ℕ) (x : ℕ × Callback ℕ) (front behind : Kept) (old : Callback ℕ)
    → All (λ (p : ℕ × Callback ℕ). p.0 ≢ h) front
    → insert_before h x (front ++ (h, old) ∷ behind) ≡ front ++ x ∷ (h, old) ∷ behind
unfolding insert_before
insert_before_lem h x [] behind old a = ground arith
insert_before_lem h x (y ∷ front) behind old a =
    let other : (y.0 == h) ≡ false = ground (arith, a.0) in
    rw (insert_before, other) (ap (◌∷◌ y) (insert_before_lem h x front behind old a.1))

kept-Documented : Documented kept
kept-Documented = record {
  listeners-new_list = refl;
  append_fresh = λ c l. unused_above (unused l) l (omega arith);
  listeners-append = λ c l. refl;
  insert_fresh = λ c h l. unused_above (unused l) l (omega arith);
  listeners-insert = λ c h l front behind old e a.
      ap (insert_before h (unused l, c)) e ∙ insert_before_lem h (unused l, c) front behind old a;
  listeners-remove = λ h l. refl;
  invoke_lem = λ l s. refl;
}

abbrev counts : Callback ℕ
counts n = (suc n, false)

abbrev stops : Callback ℕ
stops n = (n, true)

abbrev listener : ℤ → ℕ → Callback ℕ → Listener ℕ
listener priority handle callback = record {
  priority = priority;
  handle = handle;
  callback = callback;
}

-- A listener at the highest priority that cancels, and one behind it.
abbrev two : List (Listener ℕ)
two = listener highest 1 stops ∷ listener normal 2 counts ∷ []

abbrev d : Dispatcher Kept
d = record { handles = λ e. map entry two; lists = λ e. map pair two }

d-Represents : (event : ℕ) → Represents kept d event two
unfolding int_gt
d-Represents event = record {
  entries = refl;
  callbacks = refl;
  in_order = (((refl, omega arith), tt), (tt, tt));
}

append_listener-Represents_example :
    (front : List (Listener ℕ)) × (behind : List (Listener ℕ)) × (two ≡ front ++ behind)
    × All (NotAbove normal) front
    × All (Above normal) behind
    × Represents kept (append_listener kept 5 counts normal d).1 5 (
        front
        ++ record {
          priority = normal;
          handle = (append_listener kept 5 counts normal d).0;
          callback = counts;
        }
          ∷ behind)
append_listener-Represents_example =
    append_listener-Represents kept kept-Documented d 5 counts normal two (d-Represents 5)

-- What is put in front at the highest priority stands behind what has it.
prepended :
    (prepend_listener kept 5 counts d).1.lists 5 ≡ (1, stops) ∷ (4, counts) ∷ (2, counts) ∷ []
unfolding prepend_listener append_listener int_gt insert_before unused
prepended = refl
