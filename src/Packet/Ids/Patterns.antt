-- ===== src/Packet/Ids/Patterns.antt =====
-- packet_id.hpp: the patterns of the text packets, where the anchors stand at newlines.
use gtproxy.Prelude.{
  ℕ, ◌≡◌, refl, ◌∙◌, arith, Bytes, [], ◌∷◌, ◌++◌, List, Bool, true, false, ◌==◌, bytes,
}
use gtproxy.Utils.TextParse.{newline, starts_with}
use gtproxy.Utils.TextParse.Split.{Lacks}
use gtproxy.Packet.Ids.{
  quit_pattern, quit_to_exit_pattern, join_request_pattern, validate_world_pattern, input_pattern,
  log_pattern, PacketId, TextPattern, text_patterns, at_end, matches_here, regex_search,
  search_patterns,
}

-- The anchors ^ and $ stand at newlines.
abbrev pub at_newlines : ℕ → Bool
at_newlines c = c == newline

-- Within a line no pattern starts.
regex_search-line :
    (p : TextPattern) (line rest : Bytes)
    → Lacks newline line
    → regex_search at_newlines p false (line ++ rest) ≡ regex_search at_newlines p false rest
unfolding regex_search
regex_search-line p [] rest h = refl
regex_search-line p (c ∷ cs) rest h =
    let other : (c == newline) ≡ false = ground arith in
    rw (other, regex_search) (regex_search-line p cs rest h.1)

regex_search-last :
    (p : TextPattern) (line : Bytes)
    → Lacks newline line
    → regex_search at_newlines p false line ≡ false
unfolding regex_search
regex_search-last p [] h = refl
regex_search-last p (c ∷ cs) h =
    let other : (c == newline) ≡ false = ground arith in
    rw (other, regex_search) (regex_search-last p cs h.1)

search_patterns-miss :
    (p : TextPattern) (ps : List TextPattern) (str : Bytes)
    → regex_search at_newlines p true str ≡ false
    → search_patterns at_newlines (p ∷ ps) str ≡ search_patterns at_newlines ps str
unfolding search_patterns
search_patterns-miss p ps str e = rw e refl

search_patterns-hit :
    (p : TextPattern) (ps : List TextPattern) (str : Bytes)
    → regex_search at_newlines p true str ≡ true
    → search_patterns at_newlines (p ∷ ps) str ≡ p.id
unfolding search_patterns
search_patterns-hit p ps str e = rw e refl

pub search_patterns-join :
    (name flag : Bytes)
    → Lacks newline name
    → Lacks newline flag
    → search_patterns at_newlines text_patterns
        (bytes "action|join_request\nname|" ++ (name ++ (bytes "\ninvitedWorld|" ++ flag)))
      ≡ PacketId.join_request
unfolding regex_search matches_here at_end starts_with
search_patterns-join name flag h k =
    search_patterns-miss quit_pattern _ _
      (regex_search-line quit_pattern name _ h ∙ regex_search-last quit_pattern flag k)
    ∙ search_patterns-miss quit_to_exit_pattern _ _ (
        regex_search-line quit_to_exit_pattern name _ h
        ∙ regex_search-last quit_to_exit_pattern flag k)
    ∙ search_patterns-hit join_request_pattern _ _ refl

pub search_patterns-validate :
    (name : Bytes)
    → Lacks newline name
    → search_patterns at_newlines text_patterns (bytes "action|validate_world\nname|" ++ name)
      ≡ PacketId.validate_world
unfolding regex_search matches_here at_end starts_with
search_patterns-validate name h =
    search_patterns-miss quit_pattern _ _ (regex_search-last quit_pattern name h)
    ∙ search_patterns-miss quit_to_exit_pattern _ _ (regex_search-last quit_to_exit_pattern name h)
    ∙ search_patterns-miss join_request_pattern _ _ (regex_search-last join_request_pattern name h)
    ∙ search_patterns-hit validate_world_pattern _ _ refl

pub search_patterns-input :
    (str : Bytes)
    → Lacks newline str
    → search_patterns at_newlines text_patterns (bytes "action|input|text|" ++ str) ≡ PacketId.input
unfolding regex_search matches_here at_end starts_with
search_patterns-input str h =
    search_patterns-miss quit_pattern _ _ (regex_search-last quit_pattern str h)
    ∙ search_patterns-miss quit_to_exit_pattern _ _ (regex_search-last quit_to_exit_pattern str h)
    ∙ search_patterns-miss join_request_pattern _ _ (regex_search-last join_request_pattern str h)
    ∙ search_patterns-miss validate_world_pattern _ _
        (regex_search-last validate_world_pattern str h)
    ∙ search_patterns-hit input_pattern _ _ refl

pub search_patterns-log :
    (msg : Bytes)
    → Lacks newline msg
    → search_patterns at_newlines text_patterns (bytes "action|log\nmsg|" ++ msg) ≡ PacketId.log
unfolding regex_search matches_here at_end starts_with
search_patterns-log msg h =
    search_patterns-miss quit_pattern _ _ (regex_search-last quit_pattern msg h)
    ∙ search_patterns-miss quit_to_exit_pattern _ _ (regex_search-last quit_to_exit_pattern msg h)
    ∙ search_patterns-miss join_request_pattern _ _ (regex_search-last join_request_pattern msg h)
    ∙ search_patterns-miss validate_world_pattern _ _
        (regex_search-last validate_world_pattern msg h)
    ∙ search_patterns-miss input_pattern _ _ (regex_search-last input_pattern msg h)
    ∙ search_patterns-hit log_pattern _ _ refl

pub search_patterns-quit :
    search_patterns at_newlines text_patterns (bytes "action|quit") ≡ PacketId.quit
unfolding search_patterns
search_patterns-quit = refl

pub search_patterns-quit_to_exit :
    search_patterns at_newlines text_patterns (bytes "action|quit_to_exit") ≡ PacketId.quit_to_exit
unfolding search_patterns
search_patterns-quit_to_exit = refl
