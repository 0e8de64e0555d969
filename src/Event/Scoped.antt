-- ===== src/Event/Scoped.antt =====
-- event/event.hpp: ScopedHandle, which removes a listener when it goes out of scope. The program has one
-- dispatcher, so the pointer to it is a flag; the constructor without arguments leaves it as memory
-- has it, and has no model.
use gtproxy.Prelude.{ℕ, Bool, true, false, ◌≡◌, refl, if◌then◌else◌, Bool-cases, inl, inr}
use gtproxy.Event.{CallbackList, Dispatcher, remove_listener}

pub record ScopedHandle : Type 0 where
  pub owner : Bool
  pub type : ℕ
  pub handle : ℕ

unfoldable pub new_scoped : (type handle : ℕ) → ScopedHandle
new_scoped type handle = record { owner = true; type = type; handle = handle }

-- The move constructor: the new object, and the other one afterwards.
unfoldable move_scoped : ScopedHandle → ScopedHandle × ScopedHandle
move_scoped other = (other, record other { owner = false })

module _ {S L : Type 0} (lib : CallbackList S L) where
  -- `reset`, which is the destructor too.
  unfoldable pub reset : ScopedHandle → Dispatcher L → ScopedHandle × Dispatcher L
  unfolding remove_listener
  reset h d =
      if h.owner
      then (record h { owner = false }, (remove_listener lib h.type h.handle d).1)
      else (h, d)

  -- The move assignment from another object: the target, the other one, and the dispatcher.
  unfoldable move_assign :
      ScopedHandle → ScopedHandle → Dispatcher L → (ScopedHandle × ScopedHandle) × Dispatcher L
  unfolding reset move_scoped
  move_assign target other d = (move_scoped other, (reset target d).1)

  -- A second reset changes nothing.
  reset_twice :
      (h : ScopedHandle) (d : Dispatcher L) → reset (reset h d).0 (reset h d).1 ≡ reset h d
  unfolding reset
  reset_twice h d = elim (Bool-cases h.owner) [ inl e ↦ rw e refl | inr e ↦ rw e refl ]

  -- Of a moved handle and the one that it was moved from, whichever goes first, the listener is
  -- removed once.
  reset-move_scoped :
      (h : ScopedHandle) (d : Dispatcher L)
      → ((reset (move_scoped h).1 (reset (move_scoped h).0 d).1).1 ≡ (reset h d).1)
        × ((reset (move_scoped h).0 (reset (move_scoped h).1 d).1).1 ≡ (reset h d).1)
  unfolding reset move_scoped
  reset-move_scoped h d = (refl, refl)
