-- ===== src/Event/Lists.antt =====
-- event.hpp: facts of lists and of pairs of their elements.
use gtproxy.Prelude.{◌≡◌, refl, ap, Bool, ◌++◌, List, [], ◌∷◌, map, Bool-cases, inl, inr}
use gtproxy.Event.{erase_if}

abbrev pub All {ℓ} : {A : Type ℓ} → (A → Type 0) → List A → Type 0
All P [] = Unit
All P (x ∷ xs) = P x × All P xs

-- The relation holds from each element to all behind it.
abbrev pub Pairwise {ℓ} : {A : Type ℓ} → (A → A → Type 0) → List A → Type 0
Pairwise R [] = Unit
Pairwise R (x ∷ xs) = All (R x) xs × Pairwise R xs

module _ {ℓ} {A : Type ℓ} where
  pub All-middle :
      (P : A → Type 0) (front behind : List A) (x : A) → All P (front ++ x ∷ behind) → P x
  All-middle P [] behind x h = h.0
  All-middle P (a ∷ front) behind x h = All-middle P front behind x h.1

  pub All-behind : (P : A → Type 0) (front behind : List A) → All P (front ++ behind) → All P behind
  All-behind P [] behind h = h
  All-behind P (a ∷ front) behind h = All-behind P front behind h.1

  pub All-insert :
      (P : A → Type 0) (front behind : List A) (x : A)
      → P x
      → All P (front ++ behind)
      → All P (front ++ x ∷ behind)
  All-insert P [] behind x p h = (p, h)
  All-insert P (a ∷ front) behind x p h = (h.0, All-insert P front behind x p h.1)

  pub Pairwise-insert :
      (R : A → A → Type 0) (front behind : List A) (x : A)
      → All (λ a. R a x) front
      → All (R x) behind
      → Pairwise R (front ++ behind)
      → Pairwise R (front ++ x ∷ behind)
  Pairwise-insert R [] behind x low high h = (high, h)
  Pairwise-insert R (a ∷ front) behind x low high h =
      (All-insert (R a) front behind x low.0 h.0, Pairwise-insert R front behind x low.1 high h.1)

  pub All-erase_if :
      (P : A → Type 0) (p : A → Bool) (xs : List A) → All P xs → All P (erase_if p xs)
  unfolding erase_if
  All-erase_if P p [] h = tt
  All-erase_if P p (x ∷ xs) h = elim (Bool-cases (p x)) [
    | inl e ↦ rw e (All-erase_if P p xs h.1)
    | inr e ↦ rw e (h.0, All-erase_if P p xs h.1)
  ]

  pub Pairwise-erase_if :
      (R : A → A → Type 0) (p : A → Bool) (xs : List A) → Pairwise R xs → Pairwise R (erase_if p xs)
  unfolding erase_if
  Pairwise-erase_if R p [] h = tt
  Pairwise-erase_if R p (x ∷ xs) h = elim (Bool-cases (p x)) [
    | inl e ↦ rw e (Pairwise-erase_if R p xs h.1)
    | inr e ↦ rw e (All-erase_if (R x) p xs h.0, Pairwise-erase_if R p xs h.1)
  ]

  pub map-erase_if {m} :
      {B : Type m} (f : A → B) (p : B → Bool) (xs : List A)
      → map f (erase_if (λ x. p (f x)) xs) ≡ erase_if p (map f xs)
  unfolding erase_if
  map-erase_if f p [] = refl
  map-erase_if f p (x ∷ xs) = elim (Bool-cases (p (f x))) [
    | inl e ↦ rw e (map-erase_if f p xs)
    | inr e ↦ rw e (ap (◌∷◌ (f x)) (map-erase_if f p xs))
  ]
