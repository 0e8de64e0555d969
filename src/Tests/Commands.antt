-- ===== src/Tests/Commands.antt =====
-- command_registry.cpp on a command, and network.hpp on addresses.
use gtproxy.Command.Bodies.{join_later}
use gtproxy.Packet.TextPackets.{TextPacket}
use gtproxy.Command.Effects.{may_warp}
use gtproxy.Prelude.{
  str_eq, false, ◌≡◌, refl, arith, true, List, [], ◌∷◌, ◌++◌, some, Bytes, bytes, ltb, ◌&&◌,
}
use gtproxy.Command.{Command, CommandRegistry, success, add, on_text_packet, is_space}
use gtproxy.Command.Typed.{on_text_packet-add, spaced}
use gtproxy.Utils.Network.{is_valid_ip_address, format_ip_address, octet, classify_host, hostname}
use gtproxy.Utils.Network.Octets.{is_valid_ip_address-format_ip_address}

abbrev warp : Command (List Bytes)
warp = record {
  name = bytes "warp";
  description = bytes "";
  execute = λ ctx s. (ctx.args ++ s, success);
}

abbrev none_yet : CommandRegistry (List Bytes)
none_yet = record { prefix = b'/'; commands = [] }

on_text_packet-add_example :
    on_text_packet
      (add warp none_yet)
      (some (b'/' ∷ (bytes "warp" ++ spaced (bytes "START" ∷ []))))
      []
    ≡ (
      true,
      (warp.execute
          (record {
            args = bytes "START" ∷ [];
            raw_input = b'/' ∷ (bytes "warp" ++ spaced (bytes "START" ∷ []));
          })
          []).0,
    )
unfolding is_space
on_text_packet-add_example = on_text_packet-add warp none_yet (bytes "START" ∷ []) [] (grind arith)

is_valid_ip_address-format_ip_address_example : is_valid_ip_address (format_ip_address 16777226) ≡ (
    ltb 0 (octet 16777226 0)
    && (ltb 0 (octet 16777226 8) && (ltb 0 (octet 16777226 16) && ltb 0 (octet 16777226 24))))
is_valid_ip_address-format_ip_address_example = is_valid_ip_address-format_ip_address 16777226

-- 10.0.0.1
private_address : classify_host (bytes "10.0.0.1") ≡ hostname
unfolding classify_host
private_address = refl

-- The join asks for what is found when it is due, here not the name that was typed.
other_world :
    join_later true (bytes "ELSEWHERE")
    ≡ TextPacket.join_request (record { world_name = bytes "ELSEWHERE"; invited_world = false })
      ∷ []
unfolding join_later
other_world = refl

not_to_exit : may_warp (bytes "exit" ∷ []) ≡ false
unfolding str_eq
not_to_exit = refl
