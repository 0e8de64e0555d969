-- ===== src/Utils/TextParse/Clean.antt =====
-- text_parse.hpp: texts without delimiters, the decimal numbers among them.
use gtproxy.Prelude.{
  ℕ, zero, suc, ◌+◌, ◌%◌, ◌/◌, ◌<◌, ◌≢◌, arith, List, [], ◌∷◌, Bytes, ltb, Bool-cases, inl, inr,
}
use gtproxy.Prelude.Int.{ℤ, pos, negsuc}
use gtproxy.Utils.TextParse.{newline}
use gtproxy.Utils.TextParse.Numbers.{to_chars, decimal}
use gtproxy.Utils.TextParse.Split.{Lacks, AllLack}
use gtproxy.Utils.TextParse.RoundTrip.{IsPlain, Lacks-append}

Lacks-decimal : (d fuel n : ℕ) → 57 < d → Lacks d (decimal fuel n)
unfolding decimal
Lacks-decimal d zero n h = tt
Lacks-decimal d (suc fuel) n h = elim (Bool-cases (ltb n 10)) [
  | inl e ↦ rw e (λ p. omega arith, tt)
  | inr e ↦ rw e (
      Lacks-append d (decimal fuel (n / 10)) ((b'0' + n % 10) ∷ [])
        (Lacks-decimal d fuel (n / 10) h) (λ p. omega arith, tt))
]

Lacks-to_chars : (d : ℕ) (n : ℤ) → 57 < d → Lacks d (to_chars n)
unfolding to_chars
Lacks-to_chars d (pos n) h = Lacks-decimal d 10 n h
Lacks-to_chars d (negsuc n) h = (λ p. omega arith, Lacks-decimal d 10 (suc n) h)

-- The full stop and the newline are below the digits.
pub Lacks-low_decimal : (d fuel n : ℕ) → d < 48 → Lacks d (decimal fuel n)
unfolding decimal
Lacks-low_decimal d zero n h = tt
Lacks-low_decimal d (suc fuel) n h = elim (Bool-cases (ltb n 10)) [
  | inl e ↦ rw e (λ p. omega arith, tt)
  | inr e ↦ rw e (
      Lacks-append d (decimal fuel (n / 10)) ((b'0' + n % 10) ∷ [])
        (Lacks-low_decimal d fuel (n / 10) h) (λ p. omega arith, tt))
]

-- A text with no delimiter and no newline.
abbrev pub IsClean : Bytes → Type 0
IsClean str = Lacks b'|' str × Lacks newline str

pub to_chars-IsClean : (n : ℤ) → IsClean (to_chars n)
unfolding to_chars
to_chars-IsClean (pos n) =
    (Lacks-to_chars b'|' (pos n) (omega arith), Lacks-low_decimal newline 10 n (omega arith))
to_chars-IsClean (negsuc n) = (
  Lacks-to_chars b'|' (negsuc n) (omega arith),
  (λ p. omega arith, Lacks-low_decimal newline 10 (suc n) (omega arith)),
)

abbrev AllClean : List Bytes → Type 0
AllClean [] = Unit
AllClean (v ∷ vs) = IsClean v × AllClean vs

AllClean-AllLack : (vs : List Bytes) → AllClean vs → AllLack b'|' vs × AllLack newline vs
AllClean-AllLack [] h = (tt, tt)
AllClean-AllLack (v ∷ vs) h =
    let rest : _ × _ = AllClean-AllLack vs h.1 in ((h.0.0, rest.0), (h.0.1, rest.1))

pub plain :
    (key v : Bytes) (vs : List Bytes)
    → key ≢ []
    → IsClean key
    → AllClean (v ∷ vs)
    → IsPlain b'|' (key, v ∷ vs)
plain key v vs ne clean all = record {
  key_ne_nil = ne;
  values_ne_nil = λ p. cc;
  key_lacks = clean;
  values_lack = AllClean-AllLack (v ∷ vs) all;
}
