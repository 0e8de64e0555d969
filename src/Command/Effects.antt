-- ===== src/Command/Effects.antt =====
-- command/commands/: what the commands may do to the two ends.
use gtproxy.Prelude.{
  append-nil, ℕ, ◌<◌, ◌^◌, ◌≡◌, refl, sym, ap, ◌∙◌, arith, Bool, true, false, not, ◌&&◌, List, [],
  ◌∷◌, ◌++◌, append_assoc, append-nil, Option, none, some, Bytes, bytes, length, ltb, leb, str_eq,
}
use gtproxy.Utils.TextParse.Numbers.{decimal, decimal_value, decimal_starts}
use gtproxy.Packet.TextPackets.{quit_to_exit}
use gtproxy.Packet.CallPackets.{on_name_changed, on_change_skin}
use gtproxy.Command.{is_space, Result, success, failed, CommandRegistry, words, add, on_text_packet}
use gtproxy.Command.Typed.{AllWords, spaced, words-append_spaced, on_text_packet-add}
use gtproxy.Command.Bodies.{
  Effect, server_call, client_text, cancel_by_tag, schedule_delayed, join_later, command, say,
  warp_world, warp_body, append_args, nick_body, skin_code, skin_args, skin_body, code_from_chars,
}

-- A name that can be warped to: not that of the exit, and of at most 23 bytes.
abbrev pub may_warp : List Bytes → Bool
may_warp [] = false
may_warp (world_name ∷ rest) = not (str_eq world_name (bytes "exit")) && leb (length world_name) 23

warp_world-allowed :
    (world_name : Bytes) (rest : List Bytes)
    → may_warp (world_name ∷ rest) ≡ true
    → warp_world world_name ≡ (
      cancel_by_tag (bytes "warp")
          ∷ client_text quit_to_exit
          ∷ say (bytes "Warping to " ++ (world_name ++ bytes "..."))
          ∷ schedule_delayed join_later 1750 (bytes "warp")
          ∷ [],
      success,
    )
unfolding warp_world
warp_world-allowed world_name rest h =
    let not_exit : str_eq world_name (bytes "exit") ≡ false = ground arith in
    let short : ltb 23 (length world_name) ≡ false = ground arith in rw (not_exit, short) refl

-- A line that is the prefix, "warp", the name of a world that can be warped to, and any words: the
-- packet of the line is canceled, and what is done is that the warps that are pending are canceled,
-- the game's server is told to quit to the exit, the game is told, and a join is scheduled, to
-- the world that is named where the scheduled function's reference then points.
on_text_packet-warp :
    (r : CommandRegistry (List Effect)) (world_name : Bytes) (rest : List Bytes)
    (done : List Effect)
    → AllWords (world_name ∷ rest)
    → may_warp (world_name ∷ rest) ≡ true
    → on_text_packet
        (add (command (bytes "warp") (bytes "Warp to a world.") (warp_body r.prefix)) r)
        (some (r.prefix ∷ (bytes "warp" ++ spaced (world_name ∷ rest))))
        done
      ≡ (
        true,
        done
            ++ (cancel_by_tag (bytes "warp")
                ∷ client_text quit_to_exit
                ∷ say (bytes "Warping to " ++ (world_name ++ bytes "..."))
                ∷ schedule_delayed join_later 1750 (bytes "warp")
                ∷ []),
      )
unfolding warp_body warp_world is_space
on_text_packet-warp r world_name rest done words h =
    let named : AllWords (bytes "warp" ∷ world_name ∷ rest) =
      (((λ e. cc), (refl, (refl, (refl, (refl, tt))))), words) in
    on_text_packet-add (command (bytes "warp") (bytes "Warp to a world.") (warp_body r.prefix)) r
      (world_name ∷ rest) done named
    ∙ ap (λ (r : List Effect × Result). (true, done ++ r.0)) (warp_world-allowed world_name rest h)

append_args-spaced :
    (name : Bytes) (args : List Bytes) → append_args name args ≡ name ++ spaced args
unfolding append_args
append_args-spaced name [] = sym (append-nil name)
append_args-spaced name (arg ∷ args) =
    append_args-spaced (name ++ (b' ' ∷ arg)) args ∙ append_assoc name (b' ' ∷ arg) (spaced args)

-- The name that the nick command gives is cut into just the words that were typed.
nick_body-words :
    (prefix local_net_id : ℕ) (arg : Bytes) (args : List Bytes) (raw_input : Bytes)
    → AllWords (arg ∷ args)
    → (name : Bytes) × (nick_body prefix local_net_id
          (record { args = arg ∷ args; raw_input = raw_input })
        ≡ (
          server_call (on_name_changed local_net_id name)
              ∷ say (bytes "Display name changed to " ++ name)
              ∷ [],
          success,
        ))
      × (words [] name ≡ arg ∷ args)
unfolding nick_body
nick_body-words prefix local_net_id arg args raw_input h = (
  append_args arg args,
  refl,
  ap (words []) (append_args-spaced arg args) ∙ words-append_spaced arg args h,
)

code_from_chars-decimal :
    (n : ℕ) → n < 10 ^ 10 → n < 2 ^ 32 → code_from_chars false (decimal 10 n) ≡ some n
unfolding code_from_chars
code_from_chars-decimal n h k =
    let small : ltb n (2 ^ 32) ≡ true = ground arith in
    rw (decimal_starts n h, decimal_value n h, small) refl

skin_code-decimal :
    (local_net_id n : ℕ)
    → n < 2 ^ 32
    → skin_code local_net_id false (decimal 10 n) ≡ (
      server_call (on_change_skin local_net_id n)
          ∷ say (bytes "Skin changed to " ++ decimal 10 n)
          ∷ [],
      success,
    )
unfolding skin_code
skin_code-decimal local_net_id n h =
    ap
      (λ (o : Option ℕ). elim o [
        | none ↦ (say (bytes "`4Oops: ``Invalid skin code: " ++ decimal 10 n) ∷ [], failed)
        | some code ↦ (
          server_call (on_change_skin local_net_id code)
              ∷ say (bytes "Skin changed to " ++ decimal 10 n)
              ∷ [],
          success,
        )
      ])
      (code_from_chars-decimal n (omega arith) h)

-- A skin code of 32 bits that is typed in digits is the code of the packet that the game gets.
skin_body-decimal :
    (prefix local_net_id n : ℕ) (raw_input : Bytes)
    → n < 2 ^ 32
    → skin_body prefix local_net_id (record { args = decimal 10 n ∷ []; raw_input = raw_input }) ≡ (
      server_call (on_change_skin local_net_id n)
          ∷ say (bytes "Skin changed to " ++ decimal 10 n)
          ∷ [],
      success,
    )
unfolding skin_body skin_args
skin_body-decimal prefix local_net_id n raw_input h = skin_code-decimal local_net_id n h
