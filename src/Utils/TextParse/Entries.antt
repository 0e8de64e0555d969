-- ===== src/Utils/TextParse/Entries.antt =====
-- The entries as a map from keys to values.
use gtproxy.Prelude.{
  ◌≡◌, refl, arith, false, List, [], ◌∷◌, ◌++◌, none, some, map, Bytes, if◌then◌else◌, str_eq,
  str_eq_iff,
}
use gtproxy.Prelude.Int.{ℤ, pos}
use gtproxy.Utils.TextParse.{
  Entry, TextParse, find, get, get_int, set_values, add, add_arguments, remove, contains,
  convert_to_string, integer,
}
use gtproxy.Utils.TextParse.Numbers.{IsInt32, to_chars, from_chars-to_chars}

-- What a key gives after `set`: the new values for the key that was set, and for any other what
-- it gave before.
pub find-set_values :
    (key j : Bytes) (values : List Bytes) (es : TextParse)
    → find j (set_values key values es) ≡ (if str_eq key j then some values else find j es)
unfolding find set_values
find-set_values key j values [] = refl
find-set_values key j values ((k, v) ∷ es) =
    ground
      (arith, str_eq_iff k key, str_eq_iff k j, str_eq_iff key j, find-set_values key j values es)

abbrev pub keys : TextParse → List Bytes
keys es = map (λ (e : Entry). e.0) es

-- `set` moves no key: the keys stay in order, and a new one goes to the end.
keys-set_values :
    (key : Bytes) (values : List Bytes) (es : TextParse)
    → keys (set_values key values es) ≡ (if contains es key then keys es else keys es ++ key ∷ [])
unfolding set_values contains
keys-set_values key values [] = refl
keys-set_values key values ((k, v) ∷ es) = ground (arith, keys-set_values key values es)

-- No key stands twice.
abbrev Distinct : TextParse → Type 0
Distinct [] = Unit
Distinct ((k, v) ∷ es) = (contains es k ≡ false) × Distinct es

find-contains : (key : Bytes) (es : TextParse) → contains es key ≡ false → find key es ≡ none
unfolding find contains
find-contains key [] h = refl
find-contains key ((k, v) ∷ es) h = ground (arith, find-contains key es)

-- Where no key stands twice, `remove` takes the key away and leaves the others.
find-remove :
    (key j : Bytes) (es : TextParse)
    → Distinct es
    → find j (remove key es) ≡ (if str_eq key j then none else find j es)
unfolding find remove
find-remove key j [] h = ground arith
find-remove key j ((k, v) ∷ es) h = ground (
  arith,
  str_eq_iff k key,
  str_eq_iff k j,
  str_eq_iff key j,
  find-contains k es h.0,
  find-remove key j es h.1,
)

find-add :
    (key : Bytes) (values : List Bytes) (es : TextParse)
    → contains es key ≡ false
    → find key (add key values es) ≡ some values
unfolding find add contains
find-add key values [] h = ground (arith, str_eq_iff key key)
find-add key values ((k, v) ∷ es) h = ground (arith, find-add key values es)

-- An int32_t that `add` wrote under a key that was not there is what `get<int32_t>` reads there.
get_int-add_arguments :
    (key : Bytes) (n : ℤ) (es : TextParse)
    → contains es key ≡ false
    → IsInt32 n
    → get_int (add_arguments key (integer n ∷ []) es) key (pos 0) ≡ n
unfolding get_int get add_arguments convert_to_string
get_int-add_arguments key n es h r =
    ground (arith, find-add key (to_chars n ∷ []) es h, from_chars-to_chars n r)
