-- ===== src/Utils/TextParse.antt =====
-- utils/text_parse.hpp: lines of fields, a key and its values, and their text form.
pub mod Numbers
pub mod Split
pub mod RoundTrip
pub mod Clean
pub mod Entries
use gtproxy.Prelude.{
  ℕ, zero, suc, ◌+◌, ◌-◌, ◌%◌, ◌/◌, Bool, true, false, not, ◌&&◌, ◌||◌, List, [], ◌∷◌, ◌++◌, Option,
  none, some, map, Bytes, ltb, leb, ◌==◌, if◌then◌else◌, length, get_elem?, str_eq,
}
use gtproxy.Prelude.Int.{ℤ, pos, negsuc}
use Numbers.{from_chars, to_chars}

-- `data_`: pairs of a key and its values, in the order of the text.
abbrev pub Entry : Type 0
Entry = Bytes × List Bytes

abbrev pub TextParse : Type 0
TextParse = List Entry

unfoldable pub starts_with : Bytes → Bytes → Bool
starts_with [] text = true
starts_with (d ∷ ds) [] = false
starts_with (d ∷ ds) (c ∷ cs) = d == c && starts_with ds cs

-- `std::views::split`: `gap` bytes of a delimiter are still to be passed over, and `token` is what
-- has been read of the present token.
unfoldable pub split_from : Bytes → ℕ → Bytes → Bytes → List Bytes
unfolding starts_with
split_from delimiter gap token [] = token ∷ []
split_from delimiter (suc gap) token (c ∷ cs) = split_from delimiter gap token cs
split_from delimiter zero token (c ∷ cs) = elim (starts_with delimiter (c ∷ cs)) [
  | true ↦ token ∷ split_from delimiter (length delimiter - 1) [] cs
  | false ↦ split_from delimiter zero (token ++ c ∷ []) cs
]

-- An empty delimiter makes each byte a token.
unfoldable pub split : Bytes → Bytes → List Bytes
unfolding split_from
split [] text = map (λ c. c ∷ []) text
split (d ∷ ds) text = split_from (d ∷ ds) 0 [] text

abbrev pub is_empty {ℓ} : {A : Type ℓ} → List A → Bool
is_empty [] = true
is_empty (x ∷ xs) = false

-- The loop of `tokenize`.
unfoldable pub keep_tokens : Bool → List Bytes → List Bytes → List Bytes
keep_tokens keep_empty tokens [] = tokens
keep_tokens keep_empty tokens (sv ∷ svs) =
    keep_tokens keep_empty
      (if is_empty sv && (not keep_empty || is_empty tokens) then tokens else tokens ++ sv ∷ []) svs

unfoldable pub tokenize : Bytes → Bytes → Bool → List Bytes
unfolding keep_tokens split
tokenize [] delimiter keep_empty = []
tokenize (c ∷ cs) delimiter keep_empty = keep_tokens keep_empty [] (split delimiter (c ∷ cs))

-- The body of the loop of `parse`: a line of fewer than two tokens is left out.
unfoldable pub parse_tokens : TextParse → List Bytes → TextParse
parse_tokens entries [] = entries
parse_tokens entries (key ∷ []) = entries
parse_tokens entries (key ∷ value ∷ values) = entries ++ (key, value ∷ values) ∷ []

unfoldable pub parse_lines : Bytes → TextParse → List Bytes → TextParse
unfolding parse_tokens tokenize
parse_lines delimiter entries [] = entries
parse_lines delimiter entries (line ∷ lines) =
    parse_lines delimiter (parse_tokens entries (tokenize line delimiter true)) lines

abbrev pub newline : ℕ
newline = b'\n'

-- `parse`: what the object held before is cleared.
unfoldable pub parse : Bytes → Bytes → TextParse
unfolding parse_lines tokenize
parse str delimiter = parse_lines delimiter [] (tokenize str (newline ∷ []) true)

-- `std::ranges::find_if` on the key.
unfoldable pub find : Bytes → TextParse → Option (List Bytes)
find key [] = none
find key ((k, values) ∷ entries) = if str_eq k key then some values else find key entries

abbrev or_empty : Option Bytes → Bytes
or_empty none = []
or_empty (some str) = str

-- `vec[index]` behind the test of the range; an int index may be negative.
abbrev value_at : List Bytes → ℤ → Option Bytes
value_at values (pos i) = get_elem? values i
value_at values (negsuc i) = none

-- `get<std::string>`
unfoldable pub get : TextParse → Bytes → ℤ → Bytes
unfolding find
get entries key index = elim (find key entries) [
  | none ↦ []
  | some values ↦ or_empty (value_at values index)
]

-- `get<int32_t>`: 0 where `from_chars` fails, as on an empty value.
unfoldable pub get_int : TextParse → Bytes → ℤ → ℤ
unfolding get from_chars
get_int entries key index = elim (from_chars (get entries key index)) [ none ↦ pos 0 | some n ↦ n ]

-- The arguments of the variadic `add` and `set`, as `convert_to_string` tells them apart.
pub data Argument : Type 0 where
  text : Bytes → Argument
  flag : Bool → Argument
  integer : ℤ → Argument

unfoldable pub convert_to_string : Argument → Bytes
unfolding to_chars
convert_to_string (text str) = str
convert_to_string (flag b) = if b then b'1' ∷ [] else b'0' ∷ []
convert_to_string (integer n) = to_chars n

unfoldable pub add : Bytes → List Bytes → TextParse → TextParse
add key values entries = entries ++ (key, values) ∷ []

unfoldable pub add_arguments : Bytes → List Argument → TextParse → TextParse
unfolding convert_to_string add
add_arguments key arguments entries = add key (map convert_to_string arguments) entries

-- `set`: the first entry of the key is overwritten, and a new key goes to the end.
unfoldable pub set_values : Bytes → List Bytes → TextParse → TextParse
set_values key values [] = (key, values) ∷ []
set_values key values ((k, v) ∷ entries) =
    if str_eq k key then (k, values) ∷ entries else (k, v) ∷ set_values key values entries

-- `remove` erases the first entry of the key.
unfoldable pub remove : Bytes → TextParse → TextParse
remove key [] = []
remove key ((k, v) ∷ entries) = if str_eq k key then entries else (k, v) ∷ remove key entries

unfoldable pub contains : TextParse → Bytes → Bool
contains [] key = false
contains ((k, v) ∷ entries) key = str_eq k key || contains entries key

unfoldable pub append_values : Bytes → Bytes → List Bytes → Bytes
append_values delimiter raw [] = raw
append_values delimiter raw (value ∷ values) =
    append_values delimiter ((raw ++ delimiter) ++ value) values

-- A line ends with a newline only before an entry whose key is not empty.
abbrev pub line_end : TextParse → Bytes
line_end [] = []
line_end ((k, v) ∷ entries) = if is_empty k then [] else newline ∷ []

-- The loop of `get_raw`.
unfoldable pub append_entries : Bytes → Bytes → Bytes → TextParse → Bytes
unfolding append_values
append_entries delimiter prepend_text raw [] = raw
append_entries delimiter prepend_text raw ((key, values) ∷ entries) =
    append_entries delimiter prepend_text
      (append_values delimiter ((raw ++ prepend_text) ++ key) values ++ line_end entries) entries

unfoldable pub get_raw : TextParse → Bytes → Bytes → Bytes
unfolding append_entries
get_raw entries delimiter prepend_text = append_entries delimiter prepend_text [] entries

-- The inner loop of `get_key_values`: the delimiter stands before every value but the first.
unfoldable join_values : Bytes → List Bytes → Bytes
unfolding append_values
join_values delimiter [] = []
join_values delimiter (value ∷ values) = append_values delimiter value values

unfoldable get_key_values : TextParse → Bytes → List (Bytes × Bytes)
unfolding join_values
get_key_values entries delimiter = map (λ (e : Entry). (e.0, join_values delimiter e.1)) entries
