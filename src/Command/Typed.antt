-- ===== src/Command/Typed.antt =====
-- command_registry.cpp: a line that is typed, from the prefix to the command.
use gtproxy.Prelude.{
  Option-cases, str_eq_iff, subst, ℕ, Bool, true, false, ◌≡◌, ◌≢◌, refl, sym, ap, ◌∙◌, arith, ◌++◌,
  append_assoc, append-nil, List, [], ◌∷◌, Option, none, some, Bytes, ◌==◌, if◌then◌else◌, str_eq,
  Bool-cases, inl, inr,
}
use gtproxy.Command.{
  run_command, on_text_packet, Command, CommandRegistry, is_space, words, set_command, add,
  find_command, get, is_command, name_and_args, parse, execute, on_text_packet,
}

-- A word has a byte, and none of its bytes is a space.
abbrev NoSpace : Bytes → Type 0
NoSpace [] = Unit
NoSpace (c ∷ cs) = (is_space c ≡ false) × NoSpace cs

abbrev IsWord : Bytes → Type 0
IsWord w = (w ≢ []) × NoSpace w

abbrev pub AllWords : List Bytes → Type 0
AllWords [] = Unit
AllWords (w ∷ ws) = IsWord w × AllWords ws

-- Words behind a space each.
abbrev pub spaced : List Bytes → Bytes
spaced [] = []
spaced (w ∷ ws) = b' ' ∷ (w ++ spaced ws)

words-append :
    (token w rest : Bytes) → NoSpace w → words token (w ++ rest) ≡ words (token ++ w) rest
unfolding words
words-append token [] rest h = ap (λ (t : Bytes). words t rest) (sym (append-nil token))
words-append token (c ∷ w) rest h =
    rw (words, h.0)
      (words-append (token ++ c ∷ []) w rest h.1
        ∙ ap (λ (t : Bytes). words t rest) (append_assoc token (c ∷ []) w))

words-end : (c : ℕ) (w : Bytes) → words (c ∷ w) [] ≡ (c ∷ w) ∷ []
unfolding words
words-end c w = refl

words-space : (c : ℕ) (w rest : Bytes) → words (c ∷ w) (b' ' ∷ rest) ≡ (c ∷ w) ∷ words [] rest
unfolding words is_space
words-space c w rest = refl

words-spaced : (w : Bytes) (ws : List Bytes) → w ≢ [] → AllWords ws → words w (spaced ws) ≡ w ∷ ws
words-spaced [] ws ne h = absurd (ne refl)
words-spaced (c ∷ w) [] ne h = words-end c w
words-spaced (c ∷ w) (v ∷ vs) ne h =
    words-space c w (v ++ spaced vs)
    ∙ ap (◌∷◌ (c ∷ w)) (words-append [] v (spaced vs) h.0.1 ∙ words-spaced v vs h.0.0 h.1)

-- A word and more of them behind a space each are cut into just these words.
pub words-append_spaced :
    (w : Bytes) (ws : List Bytes) → AllWords (w ∷ ws) → words [] (w ++ spaced ws) ≡ w ∷ ws
words-append_spaced w ws h = words-append [] w (spaced ws) h.0.1 ∙ words-spaced w ws h.0.0 h.1

str_eq_refl : (a : Bytes) → str_eq a a ≡ true
str_eq_refl a = (str_eq_iff a a).1 refl

module _ {S : Type 0} where
  -- A name and arguments without spaces, typed behind the prefix with a space between, are what parse
  -- takes the line for.
  pub parse-typed :
      (r : CommandRegistry S) (name : Bytes) (args : List Bytes)
      → AllWords (name ∷ args)
      → parse r (r.prefix ∷ (name ++ spaced args)) ≡ (name, args)
  unfolding parse name_and_args
  parse-typed r name args h =
      let same : (r.prefix == r.prefix) ≡ true = ground arith in
      rw same (ap name_and_args (words-append_spaced name args h))

  find_command-set_command :
      (key name : Bytes) (cmd : Command S) (cs : List (Bytes × Command S))
      → find_command name (set_command key cmd cs)
        ≡ (if str_eq key name then some cmd else find_command name cs)
  unfolding find_command set_command
  find_command-set_command key name cmd [] = refl
  find_command-set_command key name cmd ((k, c) ∷ rest) = elim (Bool-cases (str_eq k key)) [
    | inl e ↦
        (let same : k ≡ key = (str_eq_iff k key).0 e in
          rw (e, find_command)
            (subst
              (λ (x : Bytes). (if str_eq x name then some cmd else find_command name rest) ≡ (
                if str_eq key name
                then some cmd
                else if str_eq x name
                then some c
                else find_command name rest))
              (sym same)
              (elim (Bool-cases (str_eq key name)) [ inl n ↦ rw n refl | inr n ↦ rw n refl ])))
    | inr e ↦
        rw (e, find_command)
          (elim (Bool-cases (str_eq k name)) [
            | inl n ↦ rw n (elim (Bool-cases (str_eq key name)) [
              | inl q ↦ absurd (
                  cc (
                    sym (
                      (str_eq_iff k key).1
                        ((str_eq_iff k name).0 n ∙ sym ((str_eq_iff key name).0 q)))
                    ∙ e))
              | inr q ↦ rw q refl
            ])
            | inr n ↦ rw n (find_command-set_command key name cmd rest)
          ])
  ]

  -- A command that was added is found under its name, in the place of one that had the name before, and
  -- every other name finds what it found.
  pub get-add :
      (cmd : Command S) (r : CommandRegistry S) (name : Bytes)
      → get (add cmd r) name ≡ (if str_eq cmd.name name then some cmd else get r name)
  unfolding get add
  get-add cmd r name = find_command-set_command cmd.name name cmd r.commands

  run_command-known :
      (r : CommandRegistry S) (c : ℕ) (name : Bytes) (args : List Bytes) (cmd : Command S)
      (input : Bytes) (s : S)
      → get r (c ∷ name) ≡ some cmd
      → run_command r input (c ∷ name, args) s
        ≡ (true, (cmd.execute (record { args = args; raw_input = input }) s).0)
  unfolding run_command
  run_command-known r c name args cmd input s g = rw (run_command, g) refl

  execute-known :
      (r : CommandRegistry S) (name : Bytes) (args : List Bytes) (cmd : Command S) (input : Bytes)
      (s : S)
      → is_command r input ≡ true
      → parse r input ≡ (name, args)
      → name ≢ []
      → get r name ≡ some cmd
      → execute r input s ≡ (true, (cmd.execute (record { args = args; raw_input = input }) s).0)
  unfolding execute
  execute-known r [] args cmd input s c p ne g = absurd (ne refl)
  execute-known r (n ∷ name) args cmd input s c p ne g =
      rw (c, p) (run_command-known r n name args cmd input s g)

  -- A command that was added runs when its name is typed behind the prefix, with the words behind the name
  -- as its arguments and the line as its raw input, and the packet of the line is canceled.
  pub on_text_packet-add :
      (cmd : Command S) (r : CommandRegistry S) (args : List Bytes) (s : S)
      → AllWords (cmd.name ∷ args)
      → on_text_packet (add cmd r) (some (r.prefix ∷ (cmd.name ++ spaced args))) s ≡ (
        true,
        (cmd.execute
            (record { args = args; raw_input = r.prefix ∷ (cmd.name ++ spaced args) })
            s).0,
      )
  unfolding on_text_packet is_command add
  on_text_packet-add cmd r args s h =
      execute-known (add cmd r) cmd.name args cmd _ s (ground arith)
        (parse-typed (add cmd r) cmd.name args h) h.0.0
        (get-add cmd r cmd.name ∙ rw (str_eq_refl cmd.name) refl)

  run_command-false :
      (r : CommandRegistry S) (input : Bytes) (p : Bytes × List Bytes) (s : S)
      → (run_command r input p s).0 ≡ false
      → (run_command r input p s).1 ≡ s
  unfolding run_command
  run_command-false r input ([], args) s e = refl
  run_command-false r input (c ∷ name, args) s e = elim (Option-cases (get r (c ∷ name))) [
    | inl g ↦ rw (run_command, g) refl
    | inr (cmd, g) ↦
        absurd (
          cc (sym (ap (λ (q : Bool × S). q.0) (run_command-known r c name args cmd input s g)) ∙ e))
  ]

  -- A packet that is not canceled has changed nothing: it was no input, did not begin with the prefix, or
  -- named no command.
  pub on_text_packet-false :
      (r : CommandRegistry S) (o : Option Bytes) (s : S)
      → (on_text_packet r o s).0 ≡ false
      → (on_text_packet r o s).1 ≡ s
  unfolding on_text_packet execute
  on_text_packet-false r none s e = refl
  on_text_packet-false r (some text) s e = elim (Bool-cases (is_command r text)) [
    | inl c ↦
        (let runs : execute r text s ≡ run_command r text (parse r text) s = rw c refl in
          ap (λ (q : Bool × S). q.1) runs
          ∙ run_command-false r text (parse r text) s (sym (ap (λ (q : Bool × S). q.0) runs) ∙ e))
    | inr c ↦ rw c refl
  ]
