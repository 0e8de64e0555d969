-- ===== src/Command/Bodies.antt =====
-- command/commands/: what the commands do, as the packets that they write and the calls of the
-- scheduler, in their order. A packet is what is written, whether or not the end is connected.
use gtproxy.Prelude.{
  ℕ, ◌+◌, ◌-◌, ◌*◌, ◌^◌, Bool, true, false, not, ◌&&◌, ◌||◌, List, [], ◌∷◌, ◌++◌, Option, none,
  some, Bytes, bytes, length, ltb, leb, if◌then◌else◌, str_eq, map,
}
use gtproxy.Utils.TextParse.Numbers.{starts_with_digit, digits_value, is_digit, decimal}
use gtproxy.Packet.TextPackets.{TextPacket, log, quit_to_exit}
use gtproxy.Packet.CallPackets.{CallPacket, on_name_changed, on_change_skin}
use gtproxy.Command.{
  Result, success, invalid_arguments, failed, Context, Command, CommandRegistry, get,
}

pub data Effect : Type 0 where
  -- `PacketHelper::write` to `ctx.server`, the end towards the game, or to `ctx.client`
  server_text : TextPacket → Effect
  server_call : CallPacket → Effect
  client_text : TextPacket → Effect
  cancel_by_tag : Bytes → Effect
  -- `schedule_delayed`: the packets that the callback writes to the client's end, by whether that is
  -- connected when it runs, and by what then stands where its reference points
  schedule_delayed :
      (callback : Bool → Bytes → List TextPacket) (milliseconds : ℕ) (tag : Bytes) → Effect

abbrev Body : Type 0
Body = Context → List Effect × Result

-- The body as a command whose state is what was done so far.
abbrev pub command : (name description : Bytes) → Body → Command (List Effect)
command name description body = record {
  name = name;
  description = description;
  execute = λ ctx done. let (effects, result) = body ctx in (done ++ effects, result);
}

-- A Log packet to the game.
abbrev pub say : Bytes → Effect
say msg = server_text (log msg)

abbrev proxy_body : Body
proxy_body ctx = (say (bytes "Proxy command executed successfully!") ∷ [], success)

abbrev exit_body : Body
exit_body ctx = (client_text quit_to_exit ∷ [], success)

-- `prefix` is that of the registry.
abbrev warp_usage : ℕ → Effect
warp_usage prefix = say (bytes "`4Usage: ``" ++ (prefix ∷ bytes "warp <world name>"))

-- The scheduled function. It holds a reference to `world_name`, which is gone when it runs: `found` is
-- what stands there then.
unfoldable pub join_later : (connected : Bool) (found : Bytes) → List TextPacket
join_later connected found =
    if not connected
    then []
    else TextPacket.join_request (record { world_name = found; invited_world = false }) ∷ []

unfoldable pub warp_world : Bytes → List Effect × Result
warp_world world_name =
    if str_eq world_name (bytes "exit")
    then (say (bytes "`4Oops: ``You cannot warp to the exit world.") ∷ [], invalid_arguments)
    else if ltb 23 (length world_name)
    then (say (bytes "`4Error: ``World name cannot exceed 23 characters.") ∷ [], invalid_arguments)
    else (
      cancel_by_tag (bytes "warp")
          ∷ client_text quit_to_exit
          ∷ say (bytes "Warping to " ++ (world_name ++ bytes "..."))
          ∷ schedule_delayed join_later 1750 (bytes "warp")
          ∷ [],
      success,
    )

unfoldable pub warp_body : (prefix : ℕ) → Body
unfolding warp_world
warp_body prefix ctx = elim ctx.args [
  | [] ↦ (warp_usage prefix ∷ [], invalid_arguments)
  | world_name ∷ rest ↦ warp_world world_name
]

-- The loop over the arguments behind the first.
unfoldable pub append_args : Bytes → List Bytes → Bytes
append_args name [] = name
append_args name (arg ∷ args) = append_args (name ++ (b' ' ∷ arg)) args

unfoldable pub nick_body : (prefix local_net_id : ℕ) → Body
unfolding append_args
nick_body prefix local_net_id ctx = elim ctx.args [
  | [] ↦ (say (bytes "`4Usage: ``" ++ (prefix ∷ bytes "nick <nickname>")) ∷ [], invalid_arguments)
  | arg ∷ args ↦
      let name = append_args arg args in
      (
        server_call (on_name_changed local_net_id name)
            ∷ say (bytes "Display name changed to " ++ name)
            ∷ [],
        success,
      )
]

-- `tolower` and `isxdigit` of the C locale.
unfoldable to_lower : Bytes → Bytes
to_lower [] = []
to_lower (c ∷ cs) = (if leb b'A' c && leb c b'Z' then c + 32 else c) ∷ to_lower cs

unfoldable is_xdigit : ℕ → Bool
unfolding is_digit
is_xdigit c = is_digit c || ((leb b'A' c && leb c b'F') || (leb b'a' c && leb c b'f'))

unfoldable all_xdigit : Bytes → Bool
unfolding is_xdigit
all_xdigit [] = true
all_xdigit (c ∷ cs) = is_xdigit c && all_xdigit cs

abbrev xdigit_value : ℕ → ℕ
xdigit_value c = if leb c b'9' then c - b'0' else if leb c b'F' then c - 55 else c - 87

-- The number that the digits in front of `cs` go on to spell, behind `n`, to the base 16.
unfoldable xdigits_value : ℕ → Bytes → ℕ
unfolding is_xdigit
xdigits_value n [] = n
xdigits_value n (c ∷ cs) =
    let rest = xdigits_value (n * 16 + xdigit_value c) cs in if is_xdigit c then rest else n

abbrev fits_word : ℕ → Option ℕ
fits_word n = if ltb n (2 ^ 32) then some n else none

abbrev starts_with_xdigit : Bytes → Bool
starts_with_xdigit [] = false
starts_with_xdigit (c ∷ cs) = is_xdigit c

-- `std::from_chars` into a std::uint32_t.
unfoldable pub code_from_chars : (hex : Bool) → Bytes → Option ℕ
unfolding digits_value xdigits_value is_xdigit
code_from_chars false str = if starts_with_digit str then fits_word (digits_value 0 str) else none
code_from_chars true str = if starts_with_xdigit str then fits_word (xdigits_value 0 str) else none

unfoldable pub skin_code : (local_net_id : ℕ) (hex : Bool) → Bytes → List Effect × Result
unfolding code_from_chars
skin_code local_net_id hex str = elim (code_from_chars hex str) [
  | none ↦ (say (bytes "`4Oops: ``Invalid skin code: " ++ str) ∷ [], failed)
  | some code ↦ (
    server_call (on_change_skin local_net_id code) ∷ say (bytes "Skin changed to " ++ str) ∷ [],
    success,
  )
]

-- Which of the arguments is the code.
unfoldable pub skin_args : (local_net_id : ℕ) → Bytes → List Bytes → List Effect × Result
unfolding skin_code to_lower all_xdigit
skin_args local_net_id arg [] = skin_code local_net_id false arg
skin_args local_net_id arg (code ∷ rest) =
    if str_eq (to_lower arg) (bytes "hex") && all_xdigit code
    then skin_code local_net_id true code
    else skin_code local_net_id false arg

unfoldable pub skin_body : (prefix local_net_id : ℕ) → Body
unfolding skin_args
skin_body prefix local_net_id ctx = elim ctx.args [
  | [] ↦ (say (bytes "`4Usage: ``" ++ (prefix ∷ bytes "skin [hex] <code>")) ∷ [], invalid_arguments)
  | arg ∷ args ↦ skin_args local_net_id arg args
]

-- `get_all_commands`, in the order of the map.
unfoldable get_all_commands : {S : Type 0} → CommandRegistry S → List (Bytes × Bytes)
get_all_commands r = map (λ (k, c). (k, c.description)) r.commands

abbrev help_line : ℕ → Bytes → Bytes → Effect
help_line prefix name description =
    say (bytes "``" ++ (prefix ∷ (name ++ (bytes ": " ++ description))))

unfoldable help_body : {S : Type 0} → CommandRegistry S → Body
unfolding get_all_commands get
help_body r ctx = elim ctx.args [
  | [] ↦ (
    say (bytes "Available commands: " ++ decimal 20 (length (get_all_commands r)))
        ∷ map (λ (name, description). help_line r.prefix name description) (get_all_commands r),
    success,
  )
  | name ∷ rest ↦ elim (get r name) [
    | none ↦ (say (bytes "`4Error: ``Command '" ++ (name ++ bytes "' not found")) ∷ [], failed)
    | some cmd ↦ (help_line r.prefix name cmd.description ∷ [], success)
  ]
]
