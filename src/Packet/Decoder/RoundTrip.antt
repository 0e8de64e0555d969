-- ===== src/Packet/Decoder/RoundTrip.antt =====
-- packet_decoder.cpp on what packet_helper.hpp sends.
use gtproxy.Prelude.{ℕ, ◌≡◌, Bool}
use gtproxy.Utils.ByteStream.{ByteStream, done}
use gtproxy.Utils.Zlib.{Inflate}
use gtproxy.Packet.Payload.{Payload, text, game, call, raw}
use gtproxy.Packet.Decoder.{decode}
use gtproxy.Packet.Decoder.Frames.{frame, Sendable, received}
use gtproxy.Packet.Decoder.Texts.{decode-frame-text}
use gtproxy.Packet.Decoder.Calls.{decode-frame-game, decode-frame-call}

module _ (breaks : ℕ → Bool) (inflate : Inflate) (print : Bool) where
  -- A payload that is sent, with the zero behind it, is decoded as the registry's packet for the payload
  -- that `received` describes, whether the header is printed or not: a text with the same entries, a game
  -- packet whose extra data has the zero at its end, a call with the same arguments, the header of the
  -- last two with flag and size set, and all bytes of the message kept as raw data. The payload is one
  -- that can be sent: a text of one of the two text types, plain and of 1 to 65535 bytes, or a game packet
  -- or a call whose fields fit.
  pub decode-frame :
      (p : Payload)
      → Sendable p
      → (t : ByteStream) × (decode breaks inflate print (frame p)
          ≡ done (received breaks inflate p) t)
  decode-frame (text p) h = decode-frame-text breaks inflate print p h
  decode-frame (game p) h = decode-frame-game breaks inflate print p h
  decode-frame (call p) h = decode-frame-call breaks inflate print p h
  decode-frame (raw b) h = absurd h
