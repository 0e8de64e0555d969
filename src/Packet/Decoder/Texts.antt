-- ===== src/Packet/Decoder/Texts.antt =====
-- packet_decoder.cpp: the messages of text.
use gtproxy.Prelude.{
  ℕ, ◌+◌, ◌^◌, ◌<◌, ◌≡◌, refl, sym, ap, ◌∙◌, arith, Bytes, [], ◌∷◌, ◌++◌, append_assoc, length,
  Bool, true, false, ◌⊎◌, inl, inr, Option, ◌==◌, subst, length-append,
}
use gtproxy.Utils.ByteStream.{
  ByteStream, done, Reader, of_span, size_mod, to_le, read_uint, read_string,
}
use gtproxy.Utils.ByteStream.Words.{length-to_le}
use gtproxy.Utils.ByteStream.Reads.{
  Reads, Reads-map, At, At-of_span, At-advance, advance, bind_done, read_uint-to_le, read_block-At,
}
use gtproxy.Utils.TextParse.{TextParse, parse}
use gtproxy.Utils.TextParse.RoundTrip.{parse-get_raw}
use gtproxy.Utils.Zlib.{Inflate}
use gtproxy.Packet.Payload.{TextPayload, text, game_message, generic_text_message}
use gtproxy.Packet.Registry.{IPacket, create_text}
use gtproxy.Packet.Helper.Encoding.{bar, serialize-text}
use gtproxy.Packet.Decoder.{decode, decode_message, decode_text, text_length}
use gtproxy.Packet.Decoder.Frames.{frame, raw_text, Sendable, received}

read_string-known :
    (str old : Bytes) → 0 < length str → Reads (read_string 2 old (length str)) str (true, str)
unfolding read_string
read_string-known str old h =
    let e : (length str == 0) ≡ false = ground arith in rw e (read_block-At str old)

text_length-add : (n : ℕ) → n < 2 ^ 16 → text_length (n + 5) ≡ n
unfolding text_length
text_length-add n h = omega arith

module _ (breaks : ℕ → Bool) (inflate : Inflate) (print : Bool) where
  Reads-decode_text :
      (type : ℕ) (str bytes : Bytes)
      → length bytes ≡ length str + 5
      → 0 < length str
      → length str < 2 ^ 16
      → Reads (decode_text breaks inflate type bytes) str (
          create_text breaks inflate
            (record { message_type = type; entries = parse str bar; raw_data = bytes }))
  unfolding decode_text
  Reads-decode_text type str bytes e pos small =
      Reads-map (read_string 2 [] (text_length (length bytes))) _ str (true, str)
        (subst (λ (n : ℕ). Reads (read_string 2 [] n) str (true, str))
          (sym (ap text_length e ∙ text_length-add (length str) small))
          (read_string-known str [] pos))

  pub decode_tail :
      (bytes body : Bytes) (m : ℕ) (v : Option IPacket) (t : ByteStream)
      → m < 256 ^ 4
      → At (of_span bytes) (to_le 4 m ++ body)
      → decode_message breaks inflate print bytes m (advance (length (to_le 4 m)) (of_span bytes))
        ≡ done v t
      → decode breaks inflate print bytes ≡ done v t
  unfolding decode
  decode_tail bytes body m v t h at e =
      bind_done (read_uint 4 0) _ (of_span bytes) (read_uint-to_le 4 m 0 h (of_span bytes) body at)
      ∙ e

  message_text :
      (bytes : Bytes) (m : ℕ)
      → (m ≡ generic_text_message) ⊎ (m ≡ game_message)
      → decode_message breaks inflate print bytes m ≡ decode_text breaks inflate m bytes
  unfolding decode_message
  message_text bytes m (inl e) = rw e refl
  message_text bytes m (inr e) = rw e refl

  pub frame_At :
      (bytes body : Bytes) (m : ℕ)
      → bytes ≡ to_le 4 m ++ body
      → length bytes < size_mod
      → At (of_span bytes) (to_le 4 m ++ body)
  frame_At bytes body m e small = subst (At (of_span bytes)) e (At-of_span bytes small)

  pub decode-frame-text :
      (p : TextPayload)
      → Sendable (text p)
      → (t : ByteStream) × (decode breaks inflate print (frame (text p))
          ≡ done (received breaks inflate (text p)) t)
  decode-frame-text p (type, plain, pos, small) = (
    advance (length (raw_text p)) s1,
    decode_tail (frame (text p)) (raw_text p ++ 0 ∷ []) p.message_type _ _ (ground (arith, type)) at
        (ap (λ (m : Reader (Option IPacket)). m s1)
            (message_text (frame (text p)) p.message_type type)
          ∙ Reads-decode_text p.message_type (raw_text p) (frame (text p)) size pos small s1
              (0 ∷ [])
              (At-advance (of_span (frame (text p))) (to_le 4 p.message_type) (raw_text p ++ 0 ∷ [])
                at)
          ∙ ap
              (λ (es : TextParse).
                done
                  (create_text breaks inflate (record {
                    message_type = p.message_type;
                    entries = es;
                    raw_data = frame (text p);
                  }))
                  (advance (length (raw_text p)) s1))
              (parse-get_raw b'|' p.entries (λ q. omega arith) plain)),
  )
    where
      s1 : ByteStream
      s1 = advance (length (to_le 4 p.message_type)) (of_span (frame (text p)))

      bytes_are : frame (text p) ≡ to_le 4 p.message_type ++ (raw_text p ++ 0 ∷ [])
      bytes_are =
          ap (λ (l : Bytes). l ++ 0 ∷ []) (serialize-text p)
          ∙ append_assoc (to_le 4 p.message_type) (raw_text p) (0 ∷ [])

      size : length (frame (text p)) ≡ length (raw_text p) + 5
      size = omega (
        arith,
        ap length bytes_are,
        length-append (to_le 4 p.message_type) (raw_text p ++ 0 ∷ []),
        length-append (raw_text p) (0 ∷ []),
        length-to_le 4 p.message_type,
      )

      at : At (of_span (frame (text p))) (to_le 4 p.message_type ++ (raw_text p ++ 0 ∷ []))
      at = frame_At (frame (text p)) _ p.message_type bytes_are (omega (arith, size))
