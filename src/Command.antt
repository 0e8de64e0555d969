-- ===== src/Command.antt =====
-- command/command_registry.cpp and command_handler.cpp: the commands that are typed into the chat.
pub mod Typed
pub mod Bodies
pub mod Effects
use gtproxy.Prelude.{
  ℕ, Bool, true, false, not, ◌&&◌, ◌||◌, ◌≡◌, ◌++◌, List, [], ◌∷◌, Option, none, some, Bytes, ◌==◌,
  ltb, leb, if◌then◌else◌, str_eq,
}
use gtproxy.Utils.TextParse.{is_empty}

pub data Result : Type 0 where
  success invalid_arguments failed : Result

-- `Context`; server, client, dispatcher and scheduler are the state that a command changes.
pub record Context : Type 0 where
  pub args : List Bytes
  pub raw_input : Bytes

pub record Command (S : Type 0) : Type 0 where
  pub name : Bytes
  pub description : Bytes
  pub execute : Context → S → S × Result

-- The map from names to commands, in some order.
pub record CommandRegistry (S : Type 0) : Type 0 where
  pub prefix : ℕ
  pub commands : List (Bytes × Command S)

-- The whitespace of the C locale.
unfoldable pub is_space : ℕ → Bool
is_space c = c == 32 || (leb 9 c && leb c 13)

-- What `operator>>` reads from a stream, word by word; `token` is what it has of the present one.
unfoldable pub words : Bytes → Bytes → List Bytes
unfolding is_space
words token [] = if is_empty token then [] else token ∷ []
words token (c ∷ cs) =
    let next = words [] cs in
    let longer = words (token ++ c ∷ []) cs in
    if is_space c then (if is_empty token then next else token ∷ next) else longer

-- The name, which is empty if there is none, and the arguments.
unfoldable pub name_and_args : List Bytes → Bytes × List Bytes
name_and_args [] = ([], [])
name_and_args (name ∷ args) = (name, args)

module _ {S : Type 0} where
  unfoldable pub set_command :
      Bytes → Command S → List (Bytes × Command S) → List (Bytes × Command S)
  set_command key cmd [] = (key, cmd) ∷ []
  set_command key cmd ((k, c) ∷ rest) =
      if str_eq k key then (k, cmd) ∷ rest else (k, c) ∷ set_command key cmd rest

  unfoldable pub add : Command S → CommandRegistry S → CommandRegistry S
  unfolding set_command
  add cmd r = record r { commands = set_command cmd.name cmd r.commands }

  unfoldable pub find_command : Bytes → List (Bytes × Command S) → Option (Command S)
  find_command key [] = none
  find_command key ((k, c) ∷ rest) = if str_eq k key then some c else find_command key rest

  unfoldable pub get : CommandRegistry S → Bytes → Option (Command S)
  unfolding find_command
  get r name = find_command name r.commands

  unfoldable pub is_command : CommandRegistry S → Bytes → Bool
  is_command r [] = false
  is_command r (c ∷ cs) = c == r.prefix

  unfoldable pub parse : CommandRegistry S → Bytes → Bytes × List Bytes
  unfolding words name_and_args
  parse r [] = ([], [])
  parse r (c ∷ clean) = if c == r.prefix then name_and_args (words [] clean) else ([], [])

  -- The end of `execute`, behind `parse`.
  unfoldable pub run_command : CommandRegistry S → Bytes → Bytes × List Bytes → S → Bool × S
  unfolding get
  run_command r input ([], args) s = (false, s)
  run_command r input (c ∷ name, args) s = elim (get r (c ∷ name)) [
    | none ↦ (false, s)
    | some cmd ↦ (true, (cmd.execute (record { args = args; raw_input = input }) s).0)
  ]

  -- `CommandRegistry::execute`: whether there was such a command, whatever its result is.
  unfoldable pub execute : CommandRegistry S → Bytes → S → Bool × S
  unfolding is_command parse run_command
  execute r input s =
      if not (is_command r input) then (false, s) else run_command r input (parse r input) s

  -- `CommandHandler::on_text_packet`; `none` where the event has no Input packet. The flag says whether
  -- the event is canceled.
  unfoldable pub on_text_packet : CommandRegistry S → Option Bytes → S → Bool × S
  unfolding execute
  on_text_packet r none s = (false, s)
  on_text_packet r (some text) s = execute r text s
