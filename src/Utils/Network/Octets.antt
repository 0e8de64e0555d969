-- ===== src/Utils/Network/Octets.antt =====
-- utils/network.hpp: which addresses that format_ip_address writes is_valid_ip_address accepts.
use gtproxy.Prelude.{
  ℕ, ◌^◌, ◌<◌, ◌≡◌, ◌≢◌, refl, sym, ap, ◌∙◌, arith, Bool, true, false, ◌&&◌, List, [], ◌∷◌, ◌++◌,
  append-nil, some, Bytes, ◌==◌, ltb, length,
}
use gtproxy.Utils.TextParse.{tokenize}
use gtproxy.Utils.TextParse.Numbers.{starts_with_digit, decimal, decimal_value, decimal_starts}
use gtproxy.Utils.TextParse.Split.{join, Lacks}
use gtproxy.Utils.TextParse.RoundTrip.{tokenize-join}
use gtproxy.Utils.TextParse.Clean.{Lacks-low_decimal}
use gtproxy.Utils.Network.{
  octet_from_chars, is_octet, all_octets, is_valid_ip_address, octet, format_ip_address,
}

and_true : (b : Bool) → (b && true) ≡ b
and_true true = refl
and_true false = refl

octet_from_chars-decimal : (n : ℕ) → n < 256 → octet_from_chars (decimal 10 n) ≡ some n
unfolding octet_from_chars
octet_from_chars-decimal n h =
    let small : ltb n (2 ^ 8) ≡ true = ground arith in
    rw (decimal_starts n (omega arith), decimal_value n (omega arith), small) refl

is_octet-decimal : (n : ℕ) → n < 256 → is_octet (decimal 10 n) ≡ ltb 0 n
unfolding is_octet
is_octet-decimal n h = rw (is_octet, octet_from_chars-decimal n h) (ground arith)

decimal-ne-nil : (n : ℕ) → n < 256 → decimal 10 n ≢ []
decimal-ne-nil n h e = absurd (cc (sym (decimal_starts n (omega arith)) ∙ ap starts_with_digit e))

octet_small : (ip shift : ℕ) → octet ip shift < 256
octet_small ip shift = omega arith

abbrev octets : ℕ → List Bytes
octets ip = decimal 10 (octet ip 8) ∷ decimal 10 (octet ip 16) ∷ decimal 10 (octet ip 24) ∷ []

format_ip_address-join :
    (ip : ℕ) → format_ip_address ip ≡ join (b'.' ∷ []) (decimal 10 (octet ip 0) ∷ octets ip)
unfolding format_ip_address
format_ip_address-join ip =
    ap
      (λ (last : Bytes).
        decimal 10 (octet ip 0)
        ++ (b'.'
            ∷ (decimal 10 (octet ip 8) ++ (b'.' ∷ (decimal 10 (octet ip 16) ++ (b'.' ∷ last))))))
      (sym (append-nil (decimal 10 (octet ip 24))))

tokenize-format_ip_address :
    (ip : ℕ)
    → tokenize (format_ip_address ip) (b'.' ∷ []) true ≡ decimal 10 (octet ip 0) ∷ octets ip
tokenize-format_ip_address ip =
    ap (λ (str : Bytes). tokenize str (b'.' ∷ []) true) (format_ip_address-join ip)
    ∙ tokenize-join b'.' (decimal 10 (octet ip 0)) (octets ip)
        (decimal-ne-nil (octet ip 0) (octet_small ip 0))
        (lacks (octet ip 0), (lacks (octet ip 8), (lacks (octet ip 16), (lacks (octet ip 24), tt))))
  where
    lacks : (n : ℕ) → Lacks b'.' (decimal 10 n)
    lacks n = Lacks-low_decimal b'.' 10 n (omega arith)

all_octets-octets :
    (ip : ℕ)
    → all_octets (decimal 10 (octet ip 0) ∷ octets ip)
      ≡ (ltb 0 (octet ip 0) && (ltb 0 (octet ip 8) && (ltb 0 (octet ip 16) && ltb 0 (octet ip 24))))
unfolding all_octets
all_octets-octets ip = λ i. each 0 i && (each 8 i && (each 16 i && (and_true _ ∙ each 24) i))
  where
    each : (shift : ℕ) → is_octet (decimal 10 (octet ip shift)) ≡ ltb 0 (octet ip shift)
    each shift = is_octet-decimal (octet ip shift) (octet_small ip shift)

-- is_valid_ip_address accepts what format_ip_address writes for an address if and only if none of its
-- four bytes is 0.
pub is_valid_ip_address-format_ip_address :
    (ip : ℕ)
    → is_valid_ip_address (format_ip_address ip)
      ≡ (ltb 0 (octet ip 0) && (ltb 0 (octet ip 8) && (ltb 0 (octet ip 16) && ltb 0 (octet ip 24))))
unfolding is_valid_ip_address
is_valid_ip_address-format_ip_address ip =
    ap (λ (parts : List Bytes). length parts == 4 && all_octets parts)
      (tokenize-format_ip_address ip)
    ∙ all_octets-octets ip
