-- ===== src/Utils/Network.antt =====
-- utils/network.hpp: the texts of IP addresses.
pub mod Octets
use gtproxy.Prelude.{
  ℕ, ◌/◌, ◌%◌, ◌^◌, Bool, true, false, ◌&&◌, List, [], ◌∷◌, ◌++◌, Option, none, some, Bytes, ◌==◌,
  ltb, leb, if◌then◌else◌, length,
}
use gtproxy.Utils.TextParse.{tokenize}
use gtproxy.Utils.TextParse.Numbers.{starts_with_digit, digits_value, decimal}

-- `std::from_chars` into a std::uint8_t; what follows the digits is not looked at.
unfoldable pub octet_from_chars : Bytes → Option ℕ
unfolding digits_value
octet_from_chars part =
    if starts_with_digit part
    then (if ltb (digits_value 0 part) (2 ^ 8) then some (digits_value 0 part) else none)
    else none

unfoldable pub is_octet : Bytes → Bool
unfolding octet_from_chars
is_octet part = elim (octet_from_chars part) [
  | none ↦ false
  | some value ↦ ltb 0 value && leb value 255
]

unfoldable pub all_octets : List Bytes → Bool
unfolding is_octet
all_octets [] = true
all_octets (part ∷ parts) = is_octet part && all_octets parts

unfoldable pub is_valid_ip_address : Bytes → Bool
unfolding tokenize all_octets
is_valid_ip_address address =
    let parts = tokenize address (b'.' ∷ []) true in length parts == 4 && all_octets parts

pub data HostType : Type 0 where
  ip_address hostname : HostType

unfoldable pub classify_host : Bytes → HostType
unfolding is_valid_ip_address
classify_host host = if is_valid_ip_address host then ip_address else hostname

-- The bytes of the word, the lowest first.
abbrev pub octet : ℕ → ℕ → ℕ
octet ip shift = ip / 2 ^ shift % 2 ^ 8

unfoldable pub format_ip_address : ℕ → Bytes
format_ip_address ip =
    decimal 10 (octet ip 0)
    ++ (b'.'
        ∷ (decimal 10 (octet ip 8)
            ++ (b'.' ∷ (decimal 10 (octet ip 16) ++ (b'.' ∷ decimal 10 (octet ip 24))))))
