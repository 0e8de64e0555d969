-- ===== src/Packet/Decoder/Calls.antt =====
-- packet_decoder.cpp: the game packets.
use gtproxy.Prelude.{
  Bool-cases, ◌≤◌, ℕ, ◌+◌, ◌<◌, ◌≡◌, ◌≢◌, refl, sym, ap, ◌∙◌, arith, Bytes, [], ◌∷◌, ◌++◌,
  append_assoc, length, List, Bool, true, false, inl, inr, Option, ◌==◌, length-append, ltb, drop,
}
use gtproxy.Utils.ByteStream.{ByteStream, get_data, done, Reader, of_span, size_mod, to_le}
use gtproxy.Utils.ByteStream.Words.{length-to_le}
use gtproxy.Utils.ByteStream.Reads.{At, At-advance, advance, bind_done}
use gtproxy.Utils.Zlib.{Inflate}
use gtproxy.Packet.Variant
use gtproxy.Packet.Variant.{Variant}
use gtproxy.Packet.Variant.RoundTrip.{deserialize-serialize_rest}
use gtproxy.Packet.Types.{GameUpdatePacket, to_bytes, read_packet, zero_packet, packet_size}
use gtproxy.Packet.Types.Layout.{IsPacket, read_packet-to_bytes, length-to_bytes}
use gtproxy.Packet.Payload.{GamePayload, VariantPayload, game, call}
use gtproxy.Packet.Registry.{IPacket, create_game, create_variant}
use gtproxy.Packet.Helper.{serialize, game_header, call_header}
use gtproxy.Packet.Helper.Encoding.{
  game_header-IsPacket, game_header-type, serialize-game, serialize-call, extended-IsPacket,
}
use gtproxy.Packet.Decoder.{
  skip_extra, decode, decode_message, decode_game, decode_extra, decode_call,
}
use gtproxy.Packet.Decoder.Frames.{frame, Sendable, received}
use gtproxy.Packet.Decoder.Texts.{decode_tail, frame_At}

module _ (breaks : ℕ → Bool) (inflate : Inflate) (print : Bool) where
  message_game :
      (bytes : Bytes)
      → decode_message breaks inflate print bytes 4 ≡ decode_game breaks inflate print bytes
  unfolding decode_message
  message_game bytes = refl

  -- Where the stream stands behind the type of the message and behind the header.
  abbrev behind_type : Bytes → ByteStream
  behind_type bytes = advance (length (to_le 4 4)) (of_span bytes)

  abbrev behind_header : Bytes → GameUpdatePacket → ByteStream
  behind_header bytes g = advance (length (to_bytes g)) (behind_type bytes)

  behind_header_lem :
      (bytes body : Bytes) (g : GameUpdatePacket)
      → At (behind_header bytes g) body
      → drop (behind_header bytes g).read_offset bytes ≡ body
  unfolding of_span get_data
  behind_header_lem bytes body g at = at.0

  -- The reading of a header, and what follows it.
  decode_header :
      (bytes body : Bytes) (g : GameUpdatePacket) (v : Option IPacket) (t : ByteStream)
      → IsPacket g
      → bytes ≡ to_le 4 4 ++ (to_bytes g ++ body)
      → length bytes < size_mod
      → (drop (behind_header bytes g).read_offset bytes ≡ body
          → decode_extra breaks inflate print bytes g (behind_header bytes g) ≡ done v t)
      → decode breaks inflate print bytes ≡ done v t
  unfolding decode_game
  decode_header bytes body g v t fits e small next =
      let at : At (of_span bytes) (to_le 4 4 ++ (to_bytes g ++ body)) =
        frame_At breaks inflate print bytes _ 4 e small in
      let at' : At (behind_type bytes) (to_bytes g ++ body) =
        At-advance (of_span bytes) (to_le 4 4) (to_bytes g ++ body) at in
      decode_tail breaks inflate print bytes (to_bytes g ++ body) 4 v t (omega arith) at (
        ap (λ (m : Reader (Option IPacket)). m (behind_type bytes)) (message_game bytes)
        ∙ bind_done (read_packet zero_packet) _ (behind_type bytes)
            (read_packet-to_bytes g zero_packet (behind_type bytes) body fits at')
        ∙ next
            (behind_header_lem bytes body g (At-advance (behind_type bytes) (to_bytes g) body at')))

  header_size :
      (bytes body : Bytes) (g : GameUpdatePacket)
      → bytes ≡ to_le 4 4 ++ (to_bytes g ++ body)
      → length bytes ≡ 60 + length body
  header_size bytes body g e = omega (
    arith,
    ap length e,
    length-append (to_le 4 4) (to_bytes g ++ body),
    length-append (to_bytes g) body,
    length-to_le 4 4,
    length-to_bytes g,
  )

  framed :
      (bytes head mid tail : Bytes)
      → bytes ≡ head ++ (mid ++ tail)
      → bytes ++ 0 ∷ [] ≡ head ++ (mid ++ (tail ++ 0 ∷ []))
  framed bytes head mid tail e = rw e (simp append_assoc)

  decode_extra_game :
      (bytes extra : Bytes) (g : GameUpdatePacket) (s : ByteStream)
      → g.type ≢ 1
      → 60 ≤ length bytes
      → drop s.read_offset bytes ≡ extra
      → decode_extra breaks inflate print bytes g s
        ≡ done
            (create_game breaks inflate (record { packet = g; extra = extra; raw_data = bytes }))
            (skip_extra g s)
  unfolding decode_extra
  decode_extra_game bytes extra g s ne size e =
      let big : ltb (length bytes) (4 + packet_size) ≡ false = ground arith in
      let other : (g.type == 1) ≡ false = ground arith in
      rw (e, big, other) (elim (Bool-cases print) [ inl h ↦ rw h refl | inr h ↦ rw h refl ])

  pub decode-frame-game :
      (p : GamePayload)
      → Sendable (game p)
      → (t : ByteStream) × (decode breaks inflate print (frame (game p))
          ≡ done (received breaks inflate (game p)) t)
  decode-frame-game p (fits, ne, small) = (
    skip_extra g (behind_header (frame (game p)) g),
    decode_header (frame (game p)) (p.extra ++ 0 ∷ []) g _ _
        (game_header-IsPacket p.packet p.extra fits) bytes_are small
        (decode_extra_game (frame (game p)) (p.extra ++ 0 ∷ []) g (behind_header (frame (game p)) g)
          (λ q. ne (sym (game_header-type p.packet p.extra) ∙ q))
          (omega (arith, header_size (frame (game p)) (p.extra ++ 0 ∷ []) g bytes_are))),
  )
    where
      g : GameUpdatePacket
      g = game_header p.packet p.extra

      bytes_are : frame (game p) ≡ to_le 4 4 ++ (to_bytes g ++ (p.extra ++ 0 ∷ []))
      bytes_are = framed (serialize (game p)) (to_le 4 4) (to_bytes g) p.extra (serialize-game p)

  decode_call_done :
      (bytes extra : Bytes) (vs : List Variant) (g : GameUpdatePacket) (s u : ByteStream)
      → Variant.deserialize [] extra ≡ done (true, vs) u
      → decode_call breaks inflate g extra bytes s
        ≡ done
            (create_variant breaks inflate
              (record { game_packet = g; variant = vs; raw_data = bytes }))
            s
  unfolding decode_call
  decode_call_done bytes extra vs g s u d = rw (d, decode_call) refl

  decode_extra_call :
      (bytes extra : Bytes) (vs : List Variant) (g : GameUpdatePacket) (s u : ByteStream)
      → g.type ≡ 1
      → 60 ≤ length bytes
      → Variant.deserialize [] extra ≡ done (true, vs) u
      → drop s.read_offset bytes ≡ extra
      → decode_extra breaks inflate print bytes g s
        ≡ done
            (create_variant breaks inflate
              (record { game_packet = g; variant = vs; raw_data = bytes }))
            (skip_extra g s)
  unfolding decode_extra
  decode_extra_call bytes extra vs g s u is size d e =
      let big : ltb (length bytes) (4 + packet_size) ≡ false = ground arith in
      let same : (g.type == 1) ≡ true = ground arith in
      rw (e, big, same)
        (elim (Bool-cases print) [
          | inl h ↦ rw h (decode_call_done bytes extra vs g (skip_extra g s) u d)
          | inr h ↦ rw h (decode_call_done bytes extra vs g (skip_extra g s) u d)
        ])

  pub decode-frame-call :
      (p : VariantPayload)
      → Sendable (call p)
      → (t : ByteStream) × (decode breaks inflate print (frame (call p))
          ≡ done (received breaks inflate (call p)) t)
  decode-frame-call p (fits, vfits, pos, few, small) =
      let size : length (ext ++ 0 ∷ []) < size_mod =
        omega (arith, header_size (frame (call p)) (ext ++ 0 ∷ []) g bytes_are) in
      let (u, read) = deserialize-serialize_rest p.variant (0 ∷ []) vfits pos few size in
      (
        skip_extra g (behind_header (frame (call p)) g),
        decode_header (frame (call p)) (ext ++ 0 ∷ []) g _ _
            (extended-IsPacket (record p.game_packet { type = 1 }) ext (record_call fits)) bytes_are
            small
            (decode_extra_call (frame (call p)) (ext ++ 0 ∷ []) p.variant g
              (behind_header (frame (call p)) g) u refl
              (omega (arith, header_size (frame (call p)) (ext ++ 0 ∷ []) g bytes_are)) read),
      )
    where
      ext : Bytes
      ext = Variant.serialize p.variant

      g : GameUpdatePacket
      g = call_header p.game_packet ext

      bytes_are : frame (call p) ≡ to_le 4 4 ++ (to_bytes g ++ (ext ++ 0 ∷ []))
      bytes_are = framed (serialize (call p)) (to_le 4 4) (to_bytes g) ext (serialize-call p)

      record_call : IsPacket p.game_packet → IsPacket (record p.game_packet { type = 1 })
      record_call h = omega arith
