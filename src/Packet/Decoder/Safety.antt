-- ===== src/Packet/Decoder/Safety.antt =====
-- packet_decoder.cpp: decode on any bytes.
use gtproxy.Prelude.{
  sym, subst, ap, ◌∙◌, ◌≤◌, ◌⊎◌, inl, inr, Bool-cases, leb, take, some, ℕ, ◌+◌, ◌<◌, ◌≡◌, arith,
  Bool, true, false, ◌&&◌, Option, none, Bytes, List, refl, length, length-drop, drop, ltb, ◌==◌,
  if◌then◌else◌, [],
}
use gtproxy.Utils.ByteStream.{
  of_le, get_data, get_size, contents_of, ByteStream, Outcome, done, fault, Reader, ◌>>=◌, return,
  of_span, size_mod, read_data, read_uint, read_string,
}
use gtproxy.Utils.ByteStream.Safety.{
  read_data_cases, IsGood, IsSafe, IsSafe-map, IsGood-of_span, IsGood-next, read_data-IsSafe,
  read_string-IsSafe, Ends,
}
use gtproxy.Utils.ByteStream.Reads.{advance}
use gtproxy.Utils.Zlib.{Inflate}
use gtproxy.Packet.Types.{GameUpdatePacket, zero_packet, read_packet, packet_size}
use gtproxy.Packet.Variant
use gtproxy.Packet.Variant.{Variant}
use gtproxy.Packet.Variant.Malformed.{deserialize-Ends}
use gtproxy.Packet.Payload.{
  server_hello_message, generic_text_message, game_message, game_packet_message,
}
use gtproxy.Packet.Registry.{IPacket, create_variant}
use gtproxy.Packet.Decoder.{
  text_length, skip_extra, decode_text, decode_call, decode_extra, decode_game, decode_message,
  decode,
}

-- A value and a stream come out.
abbrev pub Returns {ℓ} : {A : Type ℓ} → Outcome A → Type ℓ
Returns {A = A} o = (a : A) × (t : ByteStream) × (o ≡ done a t)

abbrev pub is_fault {ℓ} : {A : Type ℓ} → Outcome A → Bool
is_fault (done a t) = false
is_fault fault = true

is_fault-Returns {ℓ} : {A : Type ℓ} (o : Outcome A) → Returns o → is_fault o ≡ false
is_fault-Returns o (a, t, e) = ap is_fault e

-- A message that says it is a game packet and is shorter than its type and a header, where headers
-- are printed.
abbrev pub reads_behind : (print : Bool) → Bytes → Bool
reads_behind print bytes =
    leb 4 (length bytes)
    && ((of_le (take 4 bytes) == game_packet_message)
        && (print && ltb (length bytes) (4 + packet_size)))

Returns-next {ℓ κ} :
    {A : Type ℓ} {B : Type κ} (f : A → Reader B) (s : ByteStream) (o : Outcome A)
    → IsGood s
    → Ends s o
    → ((a : A) (t : ByteStream) → IsGood t → Returns (f a t))
    → Returns (elim o [ done a t ↦ f a t | fault ↦ fault ])
Returns-next f s (done a t) g (d, l, b) k = k a t (IsGood-next s t g d b)
Returns-next f s fault g e k = absurd e

Returns-bind {ℓ κ} :
    {A : Type ℓ} {B : Type κ} (m : Reader A) (f : A → Reader B) (s : ByteStream)
    → IsSafe m
    → IsGood s
    → ((a : A) (t : ByteStream) → IsGood t → Returns (f a t))
    → Returns ((m >>= f) s)
Returns-bind m f s h g k = Returns-next f s (m s) g (h s g) k

if-Returns {ℓ} :
    {A : Type ℓ} (b : Bool) (m k : Reader A) (s : ByteStream)
    → Returns (m s)
    → Returns (k s)
    → Returns ((if b then m else k) s)
if-Returns true m k s hm hk = hm
if-Returns false m k s hm hk = hk

choice-Returns {ℓ} :
    {A : Type ℓ} (b : Bool) (o p : Outcome A) → Returns o → Returns p → Returns (if b then o else p)
choice-Returns true o p ho hp = ho
choice-Returns false o p ho hp = hp

module _ (breaks : ℕ → Bool) (inflate : Inflate) where
  read_packet-IsSafe : (old : GameUpdatePacket) → IsSafe (read_packet old)
  unfolding read_packet
  read_packet-IsSafe old = IsSafe-map (read_data packet_size) _ (read_data-IsSafe packet_size)

  decode_call-Returns :
      (game_pkt : GameUpdatePacket) (extra bytes : Bytes) (s : ByteStream)
      → length extra < size_mod
      → Returns (decode_call breaks inflate game_pkt extra bytes s)
  unfolding decode_call
  decode_call-Returns game_pkt extra bytes s small =
      go (Variant.deserialize [] extra) (deserialize-Ends [] extra small)
    where
      go :
          (o : Outcome (Bool × List Variant))
          → Ends (of_span extra) o
          → Returns {A = Option IPacket} (elim o [
            | fault ↦ fault
            | done (false, variant) t ↦ done none s
            | done (true, variant) t ↦
                done
                  (create_variant breaks inflate
                    (record { game_packet = game_pkt; variant = variant; raw_data = bytes }))
                  s
          ])
      go (done (false, variant) t) e = (none, s, refl)
      go (done (true, variant) t) e = (_, s, refl)
      go fault e = absurd e

  module _ (print : Bool) (bytes : Bytes) (small : length bytes < size_mod) where
    -- The message has not the bytes that would be printed.
    abbrev short : Bool
    short = print && ltb (length bytes) (4 + packet_size)

    decode_extra-Returns :
        (game_pkt : GameUpdatePacket) (s : ByteStream)
        → short ≡ false
        → Returns (decode_extra breaks inflate print bytes game_pkt s)
    unfolding decode_extra
    decode_extra-Returns game_pkt s printed = rw printed (
        choice-Returns (game_pkt.type == 1) _ _
          (decode_call-Returns game_pkt (drop s.read_offset bytes) bytes (skip_extra game_pkt s)
            (omega (arith, length-drop s.read_offset bytes)))
          (_, _, refl))

    decode_game-short :
        (s : ByteStream)
        → IsGood s
        → short ≡ true
        → decode_game breaks inflate print bytes s ≡ fault
    unfolding decode_game decode_extra
    decode_game-short s g printed =
        go (read_packet zero_packet s) (read_packet-IsSafe zero_packet s g)
      where
        go :
            (o : Outcome (Bool × GameUpdatePacket))
            → Ends s o
            → Path
                (Outcome (Option IPacket))
                (elim o [
                  | done r t ↦ decode_extra breaks inflate print bytes r.1 t
                  | fault ↦ fault
                ])
                fault
        go (done r t) e = rw printed refl
        go fault e = refl

    decode_message-Returns :
        (msg_type : ℕ) (s : ByteStream)
        → IsGood s
        → ((msg_type == game_packet_message) ≡ false) ⊎ (short ≡ false)
        → Returns (decode_message breaks inflate print bytes msg_type s)
    unfolding decode_message decode_text decode_game
    decode_message-Returns msg_type s g h =
        if-Returns (msg_type == server_hello_message) _ _ s (_, _, refl)
          (if-Returns (msg_type == generic_text_message) _ _ s text
            (if-Returns (msg_type == game_message) _ _ s text (last h)))
      where
        text : Returns (decode_text breaks inflate msg_type bytes s)
        text =
            Returns-bind (read_string 2 [] (text_length (length bytes))) _ s
              (read_string-IsSafe 2 [] (text_length (length bytes))) g (λ r t h. (_, t, refl))

        game : short ≡ false → Returns (decode_game breaks inflate print bytes s)
        game printed =
            Returns-bind (read_packet zero_packet) _ s (read_packet-IsSafe zero_packet) g
              (λ r t h. decode_extra-Returns r.1 t printed)

        last :
            ((msg_type == game_packet_message) ≡ false) ⊎ (short ≡ false)
            → Returns (
                (if msg_type == game_packet_message
                    then decode_game breaks inflate print bytes
                    else return none)
                  s)
        last (inl other) = rw other (none, s, refl)
        last (inr printed) =
            if-Returns (msg_type == game_packet_message) (decode_game breaks inflate print bytes)
              (return none) s (game printed) (none, s, refl)

    is_fault-decode_message :
        (msg_type : ℕ) (s : ByteStream)
        → IsGood s
        → is_fault (decode_message breaks inflate print bytes msg_type s)
          ≡ ((msg_type == game_packet_message) && short)
    unfolding decode_message
    is_fault-decode_message msg_type s g = elim (Bool-cases short) [
      | inr printed ↦
          is_fault-Returns _ (decode_message-Returns msg_type s g (inr printed)) ∙ (ground arith)
      | inl printed ↦ elim (Bool-cases (msg_type == game_packet_message)) [
        | inr other ↦
            is_fault-Returns _ (decode_message-Returns msg_type s g (inl other)) ∙ (ground arith)
        | inl same ↦
            let four : 4 ≡ msg_type = ground arith in
            subst
              (λ (n : ℕ).
                is_fault (decode_message breaks inflate print bytes n s)
                ≡ ((n == game_packet_message) && short))
              four (ap is_fault (decode_game-short s g printed) ∙ sym printed)
      ]
    ]

    read_type :
        ((4 ≤ length bytes)
          × (read_uint 4 0 (of_span bytes)
              ≡ done (true, of_le (take 4 bytes)) (advance 4 (of_span bytes))))
        ⊎ ((length bytes < 4) × (read_uint 4 0 (of_span bytes) ≡ done (false, 0) (of_span bytes)))
    unfolding read_uint get_data of_span contents_of get_size
    read_type = elim (read_data_cases 4 (of_span bytes) (IsGood-of_span bytes small)) [
      | inl (fits, e) ↦ inl (fits, ap next e)
      | inr (over, e) ↦ inr (over, ap next e)
    ]
      where
        next : Outcome (Option Bytes) → Outcome (Bool × ℕ)
        next o = elim o [
          | done b t ↦ done (elim b [ none ↦ (false, 0) | some b ↦ (true, of_le b) ]) t
          | fault ↦ fault
        ]

    -- Decoding reads outside the message just where the header of a game packet is printed and the
    -- message, which says that it is a game packet, is shorter than its type and that header. Any
    -- other bytes are decoded, to a packet or to none. Their number is a std::size_t.
    pub is_fault-decode : is_fault (decode breaks inflate print bytes) ≡ reads_behind print bytes
    unfolding decode
    is_fault-decode = elim read_type [
      | inr (over, e) ↦ ap next e ∙ ground arith
      | inl (fits, e) ↦
          ap next e
          ∙ is_fault-decode_message (of_le (take 4 bytes)) (advance 4 (of_span bytes)) (fits, small)
          ∙ ground arith
    ]
      where
        next : Outcome (Bool × ℕ) → Bool
        next o = is_fault (elim o [
          | done r t ↦
              (elim r.0 as (λ b. Reader (Option IPacket)) [
                | false ↦ return none
                | true ↦ decode_message breaks inflate print bytes r.1
              ])
                t
          | fault ↦ fault
        ])
