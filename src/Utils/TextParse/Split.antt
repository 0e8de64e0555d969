-- ===== src/Utils/TextParse/Split.antt =====
-- text_parse.hpp: `std::views::split` against joining.
use gtproxy.Prelude.{
  ℕ, zero, suc, ◌-◌, ◌≡◌, ◌≢◌, refl, sym, ap, ◌∙◌, arith, true, false, List, [], ◌∷◌, ◌++◌, inl,
  inr, append_assoc, append-nil, Bytes, ◌==◌, length, drop, Bool-cases,
}
use gtproxy.Utils.TextParse.{starts_with, split_from, split}

-- The words with a delimiter in front of each.
abbrev pub delimited : Bytes → List Bytes → Bytes
delimited d [] = []
delimited d (w ∷ ws) = d ++ (w ++ delimited d ws)

-- The words with a delimiter between any two.
abbrev pub join : Bytes → List Bytes → Bytes
join d [] = []
join d (w ∷ ws) = w ++ delimited d ws

starts_with-drop : (d text : Bytes) → starts_with d text ≡ true → d ++ drop (length d) text ≡ text
unfolding starts_with
starts_with-drop [] text h = refl
starts_with-drop (x ∷ d) [] h = cc
starts_with-drop (x ∷ d) (c ∷ cs) h = ground (arith, starts_with-drop d cs)

-- Where the delimiter was met, its other bytes are passed over.
passed_over :
    (x c : ℕ) (d cs : Bytes)
    → starts_with (x ∷ d) (c ∷ cs) ≡ true
    → (x ∷ d) ++ drop (length d) cs ≡ c ∷ cs
passed_over x c d cs h = starts_with-drop (x ∷ d) (c ∷ cs) h

module _ (d token : Bytes) (c : ℕ) (cs : Bytes) where
  split_hit :
      starts_with d (c ∷ cs) ≡ true
      → split_from d 0 token (c ∷ cs) ≡ token ∷ split_from d (length d - 1) [] cs
  unfolding split_from
  split_hit e = rw (e, split_from)

  split_miss :
      starts_with d (c ∷ cs) ≡ false
      → split_from d 0 token (c ∷ cs) ≡ split_from d 0 (token ++ c ∷ []) cs
  unfolding split_from
  split_miss e = rw (e, split_from)

  split_gap : (gap : ℕ) → split_from d (suc gap) token (c ∷ cs) ≡ split_from d gap token cs
  unfolding split_from
  split_gap gap = refl

module _ (x : ℕ) (d : Bytes) where
  after_hit :
      (c : ℕ) (cs : Bytes)
      → starts_with (x ∷ d) (c ∷ cs) ≡ true
      → (x ∷ d) ++ drop (length (x ∷ d) - 1) cs ≡ c ∷ cs
  after_hit c cs e = ap (λ (k : ℕ). (x ∷ d) ++ drop k cs) (omega arith) ∙ passed_over x c d cs e

  delimited-split_from :
      (gap : ℕ) (token cs : Bytes)
      → delimited (x ∷ d) (split_from (x ∷ d) gap token cs) ≡ (x ∷ d) ++ (token ++ drop gap cs)
  delimited-split_from zero token [] = unfold split_from in refl
  delimited-split_from (suc gap) token [] = unfold split_from in refl
  delimited-split_from (suc gap) token (c ∷ cs) =
      ap (delimited (x ∷ d)) (split_gap (x ∷ d) token c cs gap) ∙ delimited-split_from gap token cs
  delimited-split_from zero token (c ∷ cs) = elim (Bool-cases (starts_with (x ∷ d) (c ∷ cs))) [
    | inl e ↦
        ap (delimited (x ∷ d)) (split_hit (x ∷ d) token c cs e)
        ∙ ap (λ (l : Bytes). (x ∷ d) ++ (token ++ l))
            (delimited-split_from (length (x ∷ d) - 1) [] cs ∙ after_hit c cs e)
    | inr e ↦
        ap (delimited (x ∷ d)) (split_miss (x ∷ d) token c cs e)
        ∙ delimited-split_from zero (token ++ c ∷ []) cs
        ∙ ap (λ (l : Bytes). (x ∷ d) ++ l) (append_assoc token (c ∷ []) cs)
  ]

  join-split_from : (token cs : Bytes) → join (x ∷ d) (split_from (x ∷ d) 0 token cs) ≡ token ++ cs
  join-split_from token [] = unfold split_from in refl
  join-split_from token (c ∷ cs) = elim (Bool-cases (starts_with (x ∷ d) (c ∷ cs))) [
    | inl e ↦
        ap (join (x ∷ d)) (split_hit (x ∷ d) token c cs e)
        ∙ ap (λ (l : Bytes). token ++ l)
            (delimited-split_from (length (x ∷ d) - 1) [] cs ∙ after_hit c cs e)
    | inr e ↦
        ap (join (x ∷ d)) (split_miss (x ∷ d) token c cs e)
        ∙ join-split_from (token ++ c ∷ []) cs
        ∙ append_assoc token (c ∷ []) cs
  ]

  -- For a delimiter that is not empty, the pieces joined by it are the text.
  pub join-split : (text : Bytes) → join (x ∷ d) (split (x ∷ d) text) ≡ text
  unfolding split
  join-split text = join-split_from [] text

abbrev pub Lacks : ℕ → Bytes → Type 0
Lacks d [] = Unit
Lacks d (c ∷ cs) = (d ≢ c) × Lacks d cs

abbrev pub AllLack : ℕ → List Bytes → Type 0
AllLack d [] = Unit
AllLack d (w ∷ ws) = Lacks d w × AllLack d ws

module _ (d : ℕ) where
  starts_with_one : (c : ℕ) (cs : Bytes) → starts_with (d ∷ []) (c ∷ cs) ≡ (d == c)
  unfolding starts_with
  starts_with_one c cs = ground arith

  split_from-word :
      (w token rest : Bytes)
      → Lacks d w
      → split_from (d ∷ []) 0 token (w ++ rest) ≡ split_from (d ∷ []) 0 (token ++ w) rest
  split_from-word [] token rest h =
      ap (λ (t : Bytes). split_from (d ∷ []) 0 t rest) (sym (append-nil token))
  split_from-word (c ∷ w) token rest h =
      let miss : (d == c) ≡ false = ground arith in
      split_miss (d ∷ []) token c (w ++ rest) (starts_with_one c (w ++ rest) ∙ miss)
      ∙ split_from-word w (token ++ c ∷ []) rest h.1
      ∙ ap (λ (t : Bytes). split_from (d ∷ []) 0 t rest) (append_assoc token (c ∷ []) w)

  split_from-delimited :
      (ws : List Bytes) (token : Bytes)
      → AllLack d ws
      → split_from (d ∷ []) 0 token (delimited (d ∷ []) ws) ≡ token ∷ ws
  split_from-delimited [] token h = unfold split_from in refl
  split_from-delimited (w ∷ ws) token h =
      let hit : (d == d) ≡ true = ground arith in
      split_hit (d ∷ []) token d (w ++ delimited (d ∷ []) ws)
        (starts_with_one d (w ++ delimited (d ∷ []) ws) ∙ hit)
      ∙ ap (◌∷◌ token)
          (split_from-word w [] (delimited (d ∷ []) ws) h.0 ∙ split_from-delimited ws w h.1)

  -- Words that lack the one-byte delimiter are what splits out of their join.
  pub split-join :
      (w : Bytes) (ws : List Bytes)
      → AllLack d (w ∷ ws)
      → split (d ∷ []) (join (d ∷ []) (w ∷ ws)) ≡ w ∷ ws
  unfolding split
  split-join w ws h =
      split_from-word w [] (delimited (d ∷ []) ws) h.0 ∙ split_from-delimited ws w h.1
