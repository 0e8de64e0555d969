-- ===== src/Tests/Texts.antt =====
-- utils/text_parse.hpp on concrete texts.
use gtproxy.Prelude.{ℕ, ◌≡◌, refl, arith, none, [], ◌∷◌, Bytes, str_eq}
use gtproxy.Prelude.Int.{pos}
use gtproxy.Utils.TextParse.{TextParse, parse, get_raw, get_int}
use gtproxy.Utils.TextParse.Numbers.{from_chars}
use gtproxy.Utils.TextParse.RoundTrip.{parse-get_raw}

abbrev bar : ℕ
bar = b'|'

-- posXY|12|7 and netID|3, on two lines.
abbrev entries : TextParse
entries = (b'p' ∷ [], (b'1' ∷ b'2' ∷ []) ∷ (b'7' ∷ []) ∷ []) ∷ (b'n' ∷ [], (b'3' ∷ []) ∷ []) ∷ []

abbrev text_of_entries : Bytes
text_of_entries = b'p' ∷ bar ∷ b'1' ∷ b'2' ∷ bar ∷ b'7' ∷ b'\n' ∷ b'n' ∷ bar ∷ b'3' ∷ []

text_parsed : parse text_of_entries (bar ∷ []) ≡ entries
unfolding parse
text_parsed = refl

text_written : get_raw entries (bar ∷ []) [] ≡ text_of_entries
unfolding get_raw
text_written = refl

-- A line of one token is left out.
lone_token : parse (b'a' ∷ []) (bar ∷ []) ≡ []
unfolding parse
lone_token = refl

number_read : get_int entries (b'p' ∷ []) (pos 0) ≡ pos 12
unfolding get_int str_eq
number_read = refl

-- Not a number of 32 bits.
too_large :
    from_chars (b'2' ∷ b'1' ∷ b'4' ∷ b'7' ∷ b'4' ∷ b'8' ∷ b'3' ∷ b'6' ∷ b'4' ∷ b'8' ∷ []) ≡ none
unfolding from_chars
too_large = refl

parse-get_raw_example : parse (get_raw entries (bar ∷ []) []) (bar ∷ []) ≡ entries
parse-get_raw_example =
    parse-get_raw bar entries (λ p. omega arith)
      (
        record {
          key_ne_nil = λ p. cc;
          values_ne_nil = λ p. cc;
          key_lacks = ((λ p. omega arith, tt), (λ p. omega arith, tt));
          values_lack = (
            ((λ p. omega arith, (λ p. omega arith, tt)), ((λ p. omega arith, tt), tt)),
            ((λ p. omega arith, (λ p. omega arith, tt)), ((λ p. omega arith, tt), tt)),
          );
        },
        (
          record {
            key_ne_nil = λ p. cc;
            values_ne_nil = λ p. cc;
            key_lacks = ((λ p. omega arith, tt), (λ p. omega arith, tt));
            values_lack = (((λ p. omega arith, tt), tt), ((λ p. omega arith, tt), tt));
          },
          tt,
        ),
      )
