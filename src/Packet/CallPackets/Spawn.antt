-- ===== src/Packet/CallPackets/Spawn.antt =====
-- packet/game/world.hpp: OnSpawn read back from what it writes.
use gtproxy.Prelude.{str_eq, ◌≡◌, refl, ap, ◌∙◌, arith, [], ◌∷◌, Option, none, some, Bytes, bytes}
use gtproxy.Prelude.Int.{ℤ, pos}
use gtproxy.Utils.TextParse.{TextParse, get, get_int, convert_to_string, add_arguments}
use gtproxy.Utils.TextParse.Numbers.{IsInt32, to_chars, from_chars, from_chars-to_chars}
use gtproxy.Utils.TextParse.RoundTrip.{AllPlain, parse-get_raw}
use gtproxy.Packet.WorldPackets.{OnSpawn, spawn_of, read_on_spawn}
use gtproxy.Packet.CallPackets.{spawn_entries, write_on_spawn}
use gtproxy.Utils.TextParse.Clean.{IsClean, plain, to_chars-IsClean}

-- What `OnSpawn::write` can write so that it is read back.
pub record SpawnFits (p : OnSpawn) : Type 0 where
  pub spawn_clean : IsClean p.spawn
  pub name_clean : IsClean p.name
  pub icon_clean : IsClean p.title_icon
  pub country_clean : IsClean p.country_code
  pub type_clean : IsClean p.type
  pub net_id_fits : IsInt32 p.net_id
  pub user_id_fits : IsInt32 p.user_id
  pub invisible_fits : IsInt32 p.invisible
  pub mod_fits : IsInt32 p.mod_state
  pub supermod_fits : IsInt32 p.supermod_state

get_int-to_chars :
    (es : TextParse) (key : Bytes) (i n : ℤ)
    → IsInt32 n
    → get es key i ≡ to_chars n
    → get_int es key i ≡ n
unfolding get_int
get_int-to_chars es key i n fits e =
    ap (λ (o : Option ℤ). elim o [ none ↦ pos 0 | some m ↦ m ])
      (ap from_chars e ∙ from_chars-to_chars n fits)

module _ (p : OnSpawn) (x y a b c d : ℤ) where
  -- A packet with two coordinates and a collision box of four.
  abbrev pub placed : OnSpawn
  placed = record p { position = x ∷ y ∷ []; collision = a ∷ b ∷ c ∷ d ∷ [] }

  abbrev PlaceFits : Type 0
  PlaceFits = IsInt32 x × IsInt32 y × IsInt32 a × IsInt32 b × IsInt32 c × IsInt32 d

  entries_plain : SpawnFits p → AllPlain b'|' (spawn_entries placed)
  unfolding spawn_entries add_arguments convert_to_string
  entries_plain h = (
    plain _ _ _ (λ q. cc) (omega arith) (h.spawn_clean, tt),
    (
      plain _ _ _ (λ q. cc) (omega arith) (to_chars-IsClean p.net_id, tt),
      (
        plain _ _ _ (λ q. cc) (omega arith) (to_chars-IsClean p.user_id, tt),
        (
          plain _ _ _ (λ q. cc) (omega arith) (h.name_clean, tt),
          (
            plain _ _ _ (λ q. cc) (omega arith) (h.icon_clean, tt),
            (
              plain _ _ _ (λ q. cc) (omega arith) (h.country_clean, tt),
              (
                plain _ _ _ (λ q. cc) (omega arith) (to_chars-IsClean x, (to_chars-IsClean y, tt)),
                (
                  plain _ _ _ (λ q. cc) (omega arith)
                      (
                        to_chars-IsClean a,
                        (to_chars-IsClean b, (to_chars-IsClean c, (to_chars-IsClean d, tt))),
                      ),
                  (
                    plain _ _ _ (λ q. cc) (omega arith) (to_chars-IsClean p.invisible, tt),
                    (
                      plain _ _ _ (λ q. cc) (omega arith) (to_chars-IsClean p.mod_state, tt),
                      (
                        plain _ _ _ (λ q. cc) (omega arith) (to_chars-IsClean p.supermod_state, tt),
                        (
                          plain _ _ _ (λ q. cc) (omega arith) ((tt, tt), tt),
                          (plain _ _ _ (λ q. cc) (omega arith) (h.type_clean, tt), tt),
                        ),
                      ),
                    ),
                  ),
                ),
              ),
            ),
          ),
        ),
      ),
    ),
  )

  spawn_of-entries :
      SpawnFits p
      → PlaceFits
      → spawn_of (spawn_entries placed) ≡ record placed { online_id = pos 0 }
  unfolding spawn_entries spawn_of add_arguments convert_to_string get str_eq
  spawn_of-entries h f = λ i. record {
    spawn = p.spawn;
    net_id =
        get_int-to_chars (spawn_entries placed) (bytes "netID") (pos 0) p.net_id h.net_id_fits refl
          i;
    user_id =
        get_int-to_chars (spawn_entries placed) (bytes "userID") (pos 0) p.user_id h.user_id_fits
          refl i;
    country_code = p.country_code;
    name = p.name;
    position =
        get_int-to_chars (spawn_entries placed) (bytes "posXY") (pos 0) x f.0 refl i
        ∷ get_int-to_chars (spawn_entries placed) (bytes "posXY") (pos 1) y f.1 refl i
        ∷ [];
    collision =
        get_int-to_chars (spawn_entries placed) (bytes "colrect") (pos 0) a f.2 refl i
        ∷ get_int-to_chars (spawn_entries placed) (bytes "colrect") (pos 1) b f.3 refl i
        ∷ get_int-to_chars (spawn_entries placed) (bytes "colrect") (pos 2) c f.4 refl i
        ∷ get_int-to_chars (spawn_entries placed) (bytes "colrect") (pos 3) d f.5 refl i
        ∷ [];
    invisible =
        get_int-to_chars (spawn_entries placed) (bytes "invis") (pos 0) p.invisible h.invisible_fits
          refl i;
    mod_state =
        get_int-to_chars (spawn_entries placed) (bytes "mstate") (pos 0) p.mod_state h.mod_fits refl
          i;
    supermod_state =
        get_int-to_chars (spawn_entries placed) (bytes "smstate") (pos 0) p.supermod_state
          h.supermod_fits refl i;
    online_id = pos 0;
    type = p.type;
    title_icon = p.title_icon;
  }

  -- OnSpawn::read of what OnSpawn::write makes gives back the packet with an online id of 0, if the texts
  -- have no delimiter and no newline and the numbers are 32 bits, with two coordinates and a box of four.
  pub read-write_on_spawn :
      SpawnFits p
      → PlaceFits
      → read_on_spawn (write_on_spawn placed) ≡ some (record placed { online_id = pos 0 })
  unfolding read_on_spawn write_on_spawn
  read-write_on_spawn h f =
      ap (λ (es : TextParse). some (spawn_of es))
        (parse-get_raw b'|' (spawn_entries placed) (λ q. omega arith) (entries_plain h))
      ∙ ap some (spawn_of-entries h f)
