-- ===== src/Utils/TextParse/Numbers.antt =====
-- `std::from_chars` and `std::to_chars` for an int32_t in base 10, as utils/text_parse.hpp uses them.
use gtproxy.Prelude.{
  ℕ, zero, suc, ◌+◌, ◌-◌, ◌*◌, ◌%◌, ◌/◌, ◌^◌, ◌≤◌, ◌<◌, ◌≡◌, refl, sym, ap, ◌∙◌, arith, Bool, true,
  false, ◌&&◌, [], ◌∷◌, ◌++◌, Option, none, some, Bytes, ltb, leb, ◌==◌, if◌then◌else◌,
  append_assoc, append-nil,
}
use native.Mathlib.Nat.{pow-suc}
use native.Mathlib.Decide.{dec_lt}
use gtproxy.Prelude.Int.{ℤ, pos, negsuc}

unfoldable pub is_digit : ℕ → Bool
is_digit c = leb b'0' c && leb c b'9'

-- The number that the digits in front of `cs` go on to spell, behind `n`.
unfoldable pub digits_value : ℕ → Bytes → ℕ
unfolding is_digit
digits_value n [] = n
digits_value n (c ∷ cs) =
    let rest = digits_value (n * 10 + (c - b'0')) cs in if is_digit c then rest else n

abbrev pub starts_with_digit : Bytes → Bool
starts_with_digit [] = false
starts_with_digit (c ∷ cs) = is_digit c

-- The digits behind a minus sign.
unfoldable from_negative : ℕ → Option ℤ
from_negative zero = some (pos 0)
from_negative (suc n) = if ltb n (2 ^ 31) then some (negsuc n) else none

unfoldable from_positive : ℕ → Option ℤ
from_positive n = if ltb n (2 ^ 31) then some (pos n) else none

-- `none` stands for an error code: no digit, or a value out of range. What follows the digits is
-- not looked at.
unfoldable pub from_chars : Bytes → Option ℤ
unfolding digits_value is_digit from_negative from_positive
from_chars [] = none
from_chars (c ∷ cs) =
    if c == b'-'
    then (if starts_with_digit cs then from_negative (digits_value 0 cs) else none)
    else if is_digit c
    then from_positive (digits_value 0 (c ∷ cs))
    else none

-- The decimal digits of `n`, at most `fuel` of them.
unfoldable pub decimal : ℕ → ℕ → Bytes
decimal zero n = []
decimal (suc fuel) n =
    let front = decimal fuel (n / 10) in (if ltb n 10 then [] else front) ++ (b'0' + n % 10) ∷ []

-- An int32_t has at most ten digits.
unfoldable pub to_chars : ℤ → Bytes
unfolding decimal
to_chars (pos n) = decimal 10 n
to_chars (negsuc n) = b'-' ∷ decimal 10 (suc n)

digits_step :
    (n d : ℕ) (rest : Bytes)
    → d < 10
    → digits_value n ((b'0' + d) ∷ rest) ≡ digits_value (n * 10 + d) rest
unfolding digits_value
digits_step n d rest h = ground arith

quotient_lt : (f n : ℕ) → n < 10 ^ suc f → n / 10 < 10 ^ f
quotient_lt f n h = omega (arith, pow-suc 10 f)

-- The digits of a number below 10, and of a larger one.
decimal_one : (f n : ℕ) → n < 10 → decimal (suc f) n ≡ (b'0' + n % 10) ∷ []
unfolding decimal
decimal_one f n h = let test : ltb n 10 ≡ true = ground arith in rw test

decimal_more : (f n : ℕ) → 10 ≤ n → decimal (suc f) n ≡ decimal f (n / 10) ++ (b'0' + n % 10) ∷ []
unfolding decimal
decimal_more f n h = let test : ltb n 10 ≡ false = ground arith in rw test

last_digit :
    (m n : ℕ) (rest : Bytes)
    → m ≡ n / 10
    → digits_value m ((b'0' + n % 10) ∷ rest) ≡ digits_value n rest
last_digit m n rest h =
    digits_step m (n % 10) rest (omega arith) ∙ ap (λ (k : ℕ). digits_value k rest) (omega arith)

-- Reading the decimal digits of `n` gives `n`, and goes on behind them.
digits_value-decimal :
    (f n : ℕ) (rest : Bytes)
    → n < 10 ^ suc f
    → digits_value 0 (decimal (suc f) n ++ rest) ≡ digits_value n rest
digits_value-decimal zero n rest h = rw (decimal_one zero n h) (last_digit 0 n rest (omega arith))
digits_value-decimal (suc f) n rest h = elim (dec_lt n 10) [
  | yes small ↦ rw (decimal_one (suc f) n small) (last_digit 0 n rest (omega arith))
  | no large ↦
      rw
        (
          decimal_more (suc f) n (omega arith),
          append_assoc (decimal (suc f) (n / 10)) ((b'0' + n % 10) ∷ []) rest,
        )
        (digits_value-decimal f (n / 10) ((b'0' + n % 10) ∷ rest) (quotient_lt (suc f) n h)
          ∙ last_digit (n / 10) n rest refl)
]

is_digit-digit : (d : ℕ) → d < 10 → is_digit (b'0' + d) ≡ true
unfolding is_digit
is_digit-digit d h = ground arith

starts_with_digit-decimal :
    (f n : ℕ) (rest : Bytes) → n < 10 ^ suc f → starts_with_digit (decimal (suc f) n ++ rest) ≡ true
starts_with_digit-decimal zero n rest h =
    rw (decimal_one zero n h) (is_digit-digit (n % 10) (omega arith))
starts_with_digit-decimal (suc f) n rest h = elim (dec_lt n 10) [
  | yes small ↦ rw (decimal_one (suc f) n small) (is_digit-digit (n % 10) (omega arith))
  | no large ↦
      rw
        (
          decimal_more (suc f) n (omega arith),
          append_assoc (decimal (suc f) (n / 10)) ((b'0' + n % 10) ∷ []) rest,
        )
        (starts_with_digit-decimal f (n / 10) ((b'0' + n % 10) ∷ rest) (quotient_lt (suc f) n h))
]

from_chars_digits :
    (cs : Bytes) → starts_with_digit cs ≡ true → from_chars cs ≡ from_positive (digits_value 0 cs)
unfolding from_chars is_digit
from_chars_digits [] h = cc
from_chars_digits (c ∷ cs) h = ground arith

from_chars_minus :
    (cs : Bytes)
    → starts_with_digit cs ≡ true
    → from_chars (b'-' ∷ cs) ≡ from_negative (digits_value 0 cs)
unfolding from_chars
from_chars_minus cs h = rw h

-- The range of an int32_t.
abbrev pub IsInt32 : ℤ → Type 0
IsInt32 (pos n) = n < 2 ^ 31
IsInt32 (negsuc n) = n < 2 ^ 31

pub decimal_value : (n : ℕ) → n < 10 ^ 10 → digits_value 0 (decimal 10 n) ≡ n
unfolding digits_value
decimal_value n h =
    ap (digits_value 0) (sym (append-nil (decimal 10 n))) ∙ digits_value-decimal 9 n [] h

pub decimal_starts : (n : ℕ) → n < 10 ^ 10 → starts_with_digit (decimal 10 n) ≡ true
decimal_starts n h =
    ap starts_with_digit (sym (append-nil (decimal 10 n))) ∙ starts_with_digit-decimal 9 n [] h

-- Every int32_t is read back from its text.
pub from_chars-to_chars : (z : ℤ) → IsInt32 z → from_chars (to_chars z) ≡ some z
unfolding to_chars from_positive from_negative
from_chars-to_chars (pos n) h =
    from_chars_digits (decimal 10 n) (decimal_starts n (omega arith))
    ∙ rw (decimal_value n (omega arith)) (ground arith)
from_chars-to_chars (negsuc n) h =
    from_chars_minus (decimal 10 (suc n)) (decimal_starts (suc n) (omega arith))
    ∙ rw (decimal_value (suc n) (omega arith)) (ground arith)
