-- ===== src/Packet/CallPackets.antt =====
-- packet/game/: the packets that are calls of a function with arguments.
pub mod Spawn
use gtproxy.Prelude.{
  ℕ, ◌%◌, ◌^◌, Bool, true, false, List, [], ◌∷◌, ◌++◌, Option, none, some, Bytes, if◌then◌else◌,
  ltb, ◌==◌, length, bytes,
}
use gtproxy.Prelude.Int.{ℤ, pos}
use gtproxy.Utils.TextParse.{
  TextParse, Argument, text, integer, add, add_arguments, parse, get, get_raw,
}
use gtproxy.Utils.TextParse.Numbers.{to_chars}
use gtproxy.Packet.Types.{GameUpdatePacket}
use gtproxy.Packet.Variant.{Variant, string, signed, unsigned, get_string, get_signed, get_unsigned}
use gtproxy.Packet.WorldPackets.{OnSpawn, OnRemove, read_on_spawn, read_on_remove}
use gtproxy.Packet.Payload.{VariantPayload, Payload, variant_payload}

-- A port is 16 bits, a login mode 8, and token and user are bit patterns of int32_t.
pub record OnSendToServer : Type 0 where
  pub port : ℕ
  pub token : ℕ
  pub user : ℕ
  pub address : Bytes
  pub door_id : Bytes
  pub uuid_token : Bytes
  pub login_mode : ℕ
  pub username : Bytes

pub record OnSuperMainStart : Type 0 where
  pub item_hash : ℕ
  pub u : Bytes
  pub uu : Bytes
  pub uuu : Bytes
  pub player_tribute_hash : ℕ

pub data CallPacket : Type 0 where
  on_send_to_server : OnSendToServer → CallPacket
  on_super_main_start : OnSuperMainStart → CallPacket
  on_spawn : OnSpawn → CallPacket
  on_remove : OnRemove → CallPacket
  on_name_changed : (net_id : ℕ) (name : Bytes) → CallPacket
  on_change_skin : (net_id skin_code : ℕ) → CallPacket

abbrev pub bar : Bytes
bar = b'|' ∷ []

-- `raw_text.substr(0, raw_text.find_first_of('|'))`
unfoldable before_bar : Bytes → Bytes
before_bar [] = []
before_bar (c ∷ cs) = let rest = before_bar cs in if c == b'|' then [] else c ∷ rest

unfoldable send_to_server_of : List Variant → OnSendToServer
unfolding before_bar parse get get_string get_signed get_unsigned
send_to_server_of variant =
    let raw_text = get_string variant 4 in
    let key = before_bar raw_text in
    let text_parse = parse raw_text bar in
    record {
      port = get_signed variant 1 % 2 ^ 16;
      token = get_signed variant 2;
      user = get_signed variant 3;
      address = key;
      door_id = get text_parse key (pos 0);
      uuid_token = get text_parse key (pos 1);
      login_mode = get_unsigned variant 5 % 2 ^ 8;
      username = get_string variant 6;
    }

unfoldable pub read_on_send_to_server : List Variant → Option OnSendToServer
unfolding send_to_server_of
read_on_send_to_server variant =
    if ltb (length variant) 5 then none else some (send_to_server_of variant)

unfoldable pub read_on_super_main_start : List Variant → Option OnSuperMainStart
unfolding get_string get_signed get_unsigned
read_on_super_main_start variant =
    if ltb (length variant) 4
    then none
    else some (record {
      item_hash = get_signed variant 1;
      u = get_string variant 2;
      uu = get_string variant 3;
      uuu = get_string variant 4;
      player_tribute_hash = get_unsigned variant 5;
    })

-- `OnNameChanged::read` and `OnChangeSkin::read` leave the net id alone.
unfoldable read_on_name_changed : ℕ → List Variant → Option CallPacket
unfolding get_string
read_on_name_changed net_id variant =
    if ltb (length variant) 2 then none else some (on_name_changed net_id (get_string variant 1))

unfoldable read_on_change_skin : ℕ → List Variant → Option CallPacket
unfolding get_unsigned
read_on_change_skin net_id variant =
    if ltb (length variant) 2 then none else some (on_change_skin net_id (get_unsigned variant 1))

unfoldable write_on_send_to_server : OnSendToServer → List Variant
unfolding get_raw add
write_on_send_to_server p =
    string (bytes "OnSendToServer")
    ∷ signed p.port
    ∷ signed p.token
    ∷ signed p.user
    ∷ string (get_raw (add p.address (p.door_id ∷ p.uuid_token ∷ []) []) bar [])
    ∷ unsigned p.login_mode
    ∷ string p.username
    ∷ []

unfoldable write_on_super_main_start : OnSuperMainStart → List Variant
write_on_super_main_start p =
    string (bytes "OnSuperMainStartAcceptLogonHrdxs47254722215a")
    ∷ signed p.item_hash
    ∷ string p.u
    ∷ string p.uu
    ∷ string p.uuu
    ∷ unsigned p.player_tribute_hash
    ∷ []

abbrev integers : List ℤ → List Argument
integers [] = []
integers (n ∷ ns) = integer n ∷ integers ns

-- The lines of `OnSpawn::write`; the position has two coordinates, the collision box four.
unfoldable pub spawn_entries : OnSpawn → TextParse
unfolding add_arguments
spawn_entries p = add_arguments (bytes "type") (text p.type ∷ []) (
    add_arguments (bytes "onlineID") (text [] ∷ []) (
      add_arguments (bytes "smstate") (integer p.supermod_state ∷ []) (
        add_arguments (bytes "mstate") (integer p.mod_state ∷ []) (
          add_arguments (bytes "invis") (integer p.invisible ∷ []) (
            add_arguments (bytes "colrect") (integers p.collision) (
              add_arguments (bytes "posXY") (integers p.position) (
                add_arguments (bytes "country") (text p.country_code ∷ []) (
                  add_arguments (bytes "titleIcon") (text p.title_icon ∷ []) (
                    add_arguments (bytes "name") (text p.name ∷ []) (
                      add_arguments (bytes "userID") (integer p.user_id ∷ []) (
                        add_arguments (bytes "netID") (integer p.net_id ∷ [])
                          (add_arguments (bytes "spawn") (text p.spawn ∷ []) []))))))))))))

unfoldable pub write_on_spawn : OnSpawn → List Variant
unfolding spawn_entries get_raw
write_on_spawn p = string (bytes "OnSpawn") ∷ string (get_raw (spawn_entries p) bar []) ∷ []

unfoldable write_on_remove : OnRemove → List Variant
unfolding to_chars
write_on_remove p =
    string (bytes "OnRemove")
    ∷ string (bytes "netID|" ++ to_chars p.net_id)
    ∷ string (bytes "pId|" ++ to_chars p.player_id)
    ∷ []

-- `write` of a packet whose `game_packet` is given.
unfoldable pub write_call : GameUpdatePacket → CallPacket → Payload
unfolding write_on_send_to_server write_on_super_main_start write_on_spawn write_on_remove
write_call packet (on_send_to_server p) = variant_payload packet (write_on_send_to_server p)
write_call packet (on_super_main_start p) = variant_payload packet (write_on_super_main_start p)
write_call packet (on_spawn p) = variant_payload packet (write_on_spawn p)
write_call packet (on_remove p) = variant_payload packet (write_on_remove p)
write_call packet (on_name_changed net_id name) =
    variant_payload (record packet { net_id = net_id })
      (string (bytes "OnNameChanged") ∷ string name ∷ [])
write_call packet (on_change_skin net_id skin_code) =
    variant_payload (record packet { net_id = net_id })
      (string (bytes "OnChangeSkin") ∷ unsigned skin_code ∷ [])
