-- ===== src/Utils/TextParse/RoundTrip.antt =====
-- text_parse.hpp: `parse` on what `get_raw` wrote.
use gtproxy.Prelude.{
  ℕ, ◌≡◌, ◌≢◌, refl, sym, ap, ◌∙◌, true, List, [], ◌∷◌, ◌++◌, append_assoc, append-nil, Bytes, map,
}
use gtproxy.Utils.TextParse.{
  Entry, TextParse, keep_tokens, tokenize, split, parse_tokens, parse_lines, parse, newline,
  line_end, append_values, append_entries, get_raw,
}
use gtproxy.Utils.TextParse.Split.{join, delimited, split-join, Lacks, AllLack}

-- The key is not empty, there is a value, and no part holds the delimiter or a newline.
pub record IsPlain (d : ℕ) (e : Entry) : Type 0 where
  pub key_ne_nil : e.0 ≢ []
  pub values_ne_nil : e.1 ≢ []
  pub key_lacks : Lacks d e.0 × Lacks newline e.0
  pub values_lack : AllLack d e.1 × AllLack newline e.1

abbrev pub AllPlain : ℕ → TextParse → Type 0
AllPlain d [] = Unit
AllPlain d (e ∷ es) = IsPlain d e × AllPlain d es

keep_tokens-append :
    (t : Bytes) (ts ws : List Bytes) → keep_tokens true (t ∷ ts) ws ≡ t ∷ (ts ++ ws)
unfolding keep_tokens
keep_tokens-append t ts [] = rw append-nil
keep_tokens-append t ts ([] ∷ ws) =
    keep_tokens-append t (ts ++ [] ∷ []) ws ∙ ap (◌∷◌ t) (append_assoc ts ([] ∷ []) ws)
keep_tokens-append t ts ((c ∷ w) ∷ ws) =
    keep_tokens-append t (ts ++ (c ∷ w) ∷ []) ws ∙ ap (◌∷◌ t) (append_assoc ts ((c ∷ w) ∷ []) ws)

keep_tokens-cons :
    (c : ℕ) (w : Bytes) (ws : List Bytes) → keep_tokens true [] ((c ∷ w) ∷ ws) ≡ (c ∷ w) ∷ ws
unfolding keep_tokens
keep_tokens-cons c w ws = keep_tokens-append (c ∷ w) [] ws

tokenize-cons :
    (c : ℕ) (cs delimiter : Bytes)
    → tokenize (c ∷ cs) delimiter true ≡ keep_tokens true [] (split delimiter (c ∷ cs))
unfolding tokenize
tokenize-cons c cs delimiter = refl

-- A join of words without the delimiter, the first not empty, is cut into just these words.
pub tokenize-join :
    (d : ℕ) (w : Bytes) (ws : List Bytes)
    → w ≢ []
    → AllLack d (w ∷ ws)
    → tokenize (join (d ∷ []) (w ∷ ws)) (d ∷ []) true ≡ w ∷ ws
tokenize-join d [] ws ne h = absurd (ne refl)
tokenize-join d (c ∷ w) ws ne h =
    tokenize-cons c (w ++ delimited (d ∷ []) ws) (d ∷ [])
    ∙ ap (keep_tokens true []) (split-join d (c ∷ w) ws h)
    ∙ keep_tokens-cons c w ws

abbrev line : ℕ → Entry → Bytes
line d (k, vs) = join (d ∷ []) (k ∷ vs)

append_values-delimited :
    (d raw : Bytes) (vs : List Bytes) → append_values d raw vs ≡ raw ++ delimited d vs
unfolding append_values
append_values-delimited d raw [] = sym (append-nil raw)
append_values-delimited d raw (v ∷ vs) =
    append_values-delimited d ((raw ++ d) ++ v) vs ∙ simp append_assoc

-- The newline that `get_raw` puts behind an entry stands in front of the next.
append_entries-delimited :
    (d : ℕ) (es : TextParse) (raw : Bytes)
    → AllPlain d es
    → append_entries (d ∷ []) [] (raw ++ line_end es) es
      ≡ raw ++ delimited (newline ∷ []) (map (line d) es)
unfolding append_entries
append_entries-delimited d [] raw h = refl
append_entries-delimited d (([], ws) ∷ es) raw h = absurd (h.0.key_ne_nil refl)
append_entries-delimited d ((c ∷ j, ws) ∷ es) raw h =
    append_entries-delimited d es _ h.1 ∙ rw append_values-delimited (simp append_assoc)

get_raw-join :
    (d : ℕ) (e : Entry) (es : TextParse)
    → AllPlain d es
    → get_raw (e ∷ es) (d ∷ []) [] ≡ join (newline ∷ []) (map (line d) (e ∷ es))
unfolding get_raw append_entries
get_raw-join d (k, vs) es h =
    append_entries-delimited d es _ h ∙ rw append_values-delimited (simp append_assoc)

pub Lacks-append : (d : ℕ) (a b : Bytes) → Lacks d a → Lacks d b → Lacks d (a ++ b)
Lacks-append d [] b h k = k
Lacks-append d (c ∷ a) b h k = (h.0, Lacks-append d a b h.1 k)

Lacks-delimited :
    (n d : ℕ) (ws : List Bytes) → n ≢ d → AllLack n ws → Lacks n (delimited (d ∷ []) ws)
Lacks-delimited n d [] ne h = tt
Lacks-delimited n d (w ∷ ws) ne h =
    (ne, Lacks-append n w (delimited (d ∷ []) ws) h.0 (Lacks-delimited n d ws ne h.1))

AllLack-lines :
    (d : ℕ) (es : TextParse) → newline ≢ d → AllPlain d es → AllLack newline (map (line d) es)
AllLack-lines d [] ne h = tt
AllLack-lines d ((k, vs) ∷ es) ne h = (
  Lacks-append newline k (delimited (d ∷ []) vs) h.0.key_lacks.1
      (Lacks-delimited newline d vs ne h.0.values_lack.1),
  AllLack-lines d es ne h.1,
)

parse_tokens-entry :
    (out : TextParse) (k : Bytes) (vs : List Bytes)
    → vs ≢ []
    → parse_tokens out (k ∷ vs) ≡ out ++ (k, vs) ∷ []
unfolding parse_tokens
parse_tokens-entry out k [] ne = absurd (ne refl)
parse_tokens-entry out k (v ∷ vs) ne = refl

parse_lines-cons :
    (delimiter : Bytes) (out : TextParse) (l : Bytes) (ls : List Bytes)
    → parse_lines delimiter out (l ∷ ls)
      ≡ parse_lines delimiter (parse_tokens out (tokenize l delimiter true)) ls
unfolding parse_lines
parse_lines-cons delimiter out l ls = refl

parse_lines-lines :
    (d : ℕ) (es out : TextParse)
    → AllPlain d es
    → parse_lines (d ∷ []) out (map (line d) es) ≡ out ++ es
parse_lines-lines d [] out h = unfold parse_lines in sym (append-nil out)
parse_lines-lines d ((k, vs) ∷ es) out h =
    parse_lines-cons (d ∷ []) out (line d (k, vs)) (map (line d) es)
    ∙ ap (λ (p : TextParse). parse_lines (d ∷ []) p (map (line d) es))
        (ap (parse_tokens out)
            (tokenize-join d k vs h.0.key_ne_nil (h.0.key_lacks.0, h.0.values_lack.0))
          ∙ parse_tokens-entry out k vs h.0.values_ne_nil)
    ∙ parse_lines-lines d es (out ++ (k, vs) ∷ []) h.1
    ∙ append_assoc out ((k, vs) ∷ []) es

parse-lines :
    (str delimiter : Bytes)
    → parse str delimiter ≡ parse_lines delimiter [] (tokenize str (newline ∷ []) true)
unfolding parse
parse-lines str delimiter = refl

line-ne-nil : (d : ℕ) (e : Entry) → IsPlain d e → line d e ≢ []
line-ne-nil d ([], vs) h = λ p. h.key_ne_nil refl
line-ne-nil d (c ∷ k, vs) h = λ p. cc

-- `parse` reads back what `get_raw` wrote, if every entry is plain. The delimiter is one byte, and
-- no newline.
pub parse-get_raw :
    (d : ℕ) (es : TextParse)
    → newline ≢ d
    → AllPlain d es
    → parse (get_raw es (d ∷ []) []) (d ∷ []) ≡ es
parse-get_raw d [] ne h = unfold parse get_raw in refl
parse-get_raw d (e ∷ es) ne h =
    parse-lines (get_raw (e ∷ es) (d ∷ []) []) (d ∷ [])
    ∙ ap (λ (l : List Bytes). parse_lines (d ∷ []) [] l)
        (ap (λ (str : Bytes). tokenize str (newline ∷ []) true) (get_raw-join d e es h.1)
          ∙ tokenize-join newline (line d e) (map (line d) es) (line-ne-nil d e h.0)
              (AllLack-lines d (e ∷ es) ne h))
    ∙ parse_lines-lines d (e ∷ es) [] h
