-- ===== src/Packet/Decoder/Messages.antt =====
-- packet/message/: the text packets, from what `write` gives over the wire to what `read` makes of it.
use gtproxy.Prelude.{
  ◌⊎◌, append-nil, append_assoc, ℕ, ◌<◌, ◌^◌, ◌≡◌, ◌≢◌, refl, ap, ◌∙◌, arith, Bytes, [], ◌∷◌, ◌++◌,
  length, Bool, true, false, Option, some, inl, inr, bytes, if◌then◌else◌, str_eq,
}
use gtproxy.Utils.ByteStream.{read_uint, ByteStream, done}
use gtproxy.Utils.TextParse.{TextParse, add, get, get_raw}
use gtproxy.Utils.TextParse.RoundTrip.{AllPlain}
use gtproxy.Utils.Zlib.{Inflate}
use gtproxy.Packet.Payload.{TextPayload, text, game_message, generic_text_message}
use gtproxy.Packet.Ids.{PacketId, derive_text_id, search_patterns, text_patterns}
use gtproxy.Packet.Ids.Patterns.{
  at_newlines, search_patterns-join, search_patterns-validate, search_patterns-input,
  search_patterns-log, search_patterns-quit, search_patterns-quit_to_exit,
}
use gtproxy.Packet.TextPackets.{
  JoinRequest, TextPacket, server_hello, quit, quit_to_exit, join_request, validate_world, input,
  log, write_text,
}
use gtproxy.Utils.TextParse.Clean.{IsClean, plain}
use gtproxy.Packet.Registry.{IPacket, text_class, create_text, is_registered, read_text}
use gtproxy.Packet.Helper.{fill, serialize}
use gtproxy.Packet.Decoder.{decode}
use gtproxy.Packet.Decoder.Frames.{frame, raw_text}
use gtproxy.Packet.Decoder.RoundTrip.{decode-frame}

-- The entries that the text of a packet is read as; the input's text stands on the line of the action.
unfoldable pub entries_of : TextPacket → TextParse
entries_of server_hello = []
entries_of quit = (bytes "action", bytes "quit" ∷ []) ∷ []
entries_of quit_to_exit = (bytes "action", bytes "quit_to_exit" ∷ []) ∷ []
entries_of (join_request p) =
    (bytes "action", bytes "join_request" ∷ [])
    ∷ (bytes "name", p.world_name ∷ [])
    ∷ (bytes "invitedWorld", (if p.invited_world then bytes "1" else bytes "0") ∷ [])
    ∷ []
entries_of (validate_world name) =
    (bytes "action", bytes "validate_world" ∷ []) ∷ (bytes "name", name ∷ []) ∷ []
entries_of (input str) = (bytes "action", bytes "input" ∷ bytes "text" ∷ str ∷ []) ∷ []
entries_of (log msg) = (bytes "action", bytes "log" ∷ []) ∷ (bytes "msg", msg ∷ []) ∷ []

-- What `read` makes of these entries.
unfoldable pub read_back : TextPacket → TextPacket
read_back (validate_world name) = validate_world []
read_back (input str) = input []
read_back (log msg) = log []
read_back p = p

abbrev CleanText : TextPacket → Type 0
CleanText (join_request p) = IsClean p.world_name
CleanText (validate_world name) = IsClean name
CleanText (input str) = IsClean str
CleanText (log msg) = IsClean msg
CleanText _ = Unit

flag_text-IsClean : (b : Bool) → IsClean (if b then bytes "1" else bytes "0")
flag_text-IsClean true = omega arith
flag_text-IsClean false = omega arith

flag_text-read : (b : Bool) → str_eq (if b then bytes "1" else bytes "0") (bytes "1") ≡ b
unfolding str_eq
flag_text-read true = refl
flag_text-read false = refl

entries_of-AllPlain : (p : TextPacket) → CleanText p → AllPlain b'|' (entries_of p)
unfolding entries_of
entries_of-AllPlain server_hello h = tt
entries_of-AllPlain quit h = (plain _ _ _ (λ q. cc) (omega arith) (omega arith), tt)
entries_of-AllPlain quit_to_exit h = (plain _ _ _ (λ q. cc) (omega arith) (omega arith), tt)
entries_of-AllPlain (join_request p) h = (
  plain _ _ _ (λ q. cc) (omega arith) (omega arith),
  (
    plain _ _ _ (λ q. cc) (omega arith) (h, tt),
    (plain _ _ _ (λ q. cc) (omega arith) (flag_text-IsClean p.invited_world, tt), tt),
  ),
)
entries_of-AllPlain (validate_world name) h = (
  plain _ _ _ (λ q. cc) (omega arith) (omega arith),
  (plain _ _ _ (λ q. cc) (omega arith) (h, tt), tt),
)
entries_of-AllPlain (input str) h =
    (plain _ _ _ (λ q. cc) (omega arith) (omega arith, (omega arith, (h, tt))), tt)
entries_of-AllPlain (log msg) h = (
  plain _ _ _ (λ q. cc) (omega arith) (omega arith),
  (plain _ _ _ (λ q. cc) (omega arith) (h, tt), tt),
)

-- The type of the message, where it is one of the two types of text.
unfoldable pub type_of : TextPacket → ℕ
type_of (input str) = generic_text_message
type_of p = game_message

abbrev sent_text : TextPacket → Bytes → TextPayload
sent_text p raw_data = record {
  message_type = type_of p;
  entries = entries_of p;
  raw_data = raw_data;
}

create_text-known :
    (inflate : Inflate) (p : TextPayload) (id : PacketId) (t : TextPacket)
    → derive_text_id at_newlines p ≡ id
    → is_registered id ≡ true
    → read_text id p.entries ≡ some t
    → create_text at_newlines inflate p ≡ some (text_class p.entries t)
unfolding create_text
create_text-known inflate p id t e r q = rw (e, r, q) refl

raw_join :
    (p : JoinRequest) (raw_data : Bytes)
    → raw_text (sent_text (join_request p) raw_data)
      ≡ bytes "action|join_request\nname|"
        ++ (p.world_name
            ++ (bytes "\ninvitedWorld|" ++ (if p.invited_world then bytes "1" else bytes "0")))
unfolding get_raw entries_of
raw_join p raw_data = simp (append_assoc, append-nil) refl

raw_validate :
    (name raw_data : Bytes)
    → raw_text (sent_text (validate_world name) raw_data)
      ≡ bytes "action|validate_world\nname|" ++ name
unfolding get_raw entries_of
raw_validate name raw_data = simp append-nil refl

raw_input :
    (str raw_data : Bytes)
    → raw_text (sent_text (input str) raw_data) ≡ bytes "action|input|text|" ++ str
unfolding get_raw entries_of
raw_input str raw_data = simp append-nil refl

raw_log :
    (msg raw_data : Bytes)
    → raw_text (sent_text (log msg) raw_data) ≡ bytes "action|log\nmsg|" ++ msg
unfolding get_raw entries_of
raw_log msg raw_data = simp append-nil refl

create_text-entries_of :
    (inflate : Inflate) (p : TextPacket) (raw_data : Bytes)
    → p ≢ server_hello
    → CleanText p
    → create_text at_newlines inflate (sent_text p raw_data)
      ≡ some (text_class (entries_of p) (read_back p))
unfolding is_registered read_text read_back entries_of derive_text_id get_raw get str_eq type_of
create_text-entries_of inflate server_hello raw_data ne h = absurd (ne refl)
create_text-entries_of inflate quit raw_data ne h =
    create_text-known inflate (sent_text quit raw_data) PacketId.quit _ search_patterns-quit refl
      refl
create_text-entries_of inflate quit_to_exit raw_data ne h =
    create_text-known inflate (sent_text quit_to_exit raw_data) PacketId.quit_to_exit _
      search_patterns-quit_to_exit refl refl
create_text-entries_of inflate (join_request p) raw_data ne h =
    create_text-known inflate (sent_text (join_request p) raw_data) PacketId.join_request _
      (ap (search_patterns at_newlines text_patterns) (raw_join p raw_data)
        ∙ search_patterns-join p.world_name _ h.1 (flag_text-IsClean p.invited_world).1)
      refl
      (ap (λ (b : Bool). some (join_request (record p { invited_world = b })))
        (flag_text-read p.invited_world))
create_text-entries_of inflate (validate_world name) raw_data ne h =
    create_text-known inflate (sent_text (validate_world name) raw_data) PacketId.validate_world _
      (ap (search_patterns at_newlines text_patterns) (raw_validate name raw_data)
        ∙ search_patterns-validate name h.1)
      refl refl
create_text-entries_of inflate (input str) raw_data ne h =
    create_text-known inflate (sent_text (input str) raw_data) PacketId.input _
      (ap (search_patterns at_newlines text_patterns) (raw_input str raw_data)
        ∙ search_patterns-input str h.1)
      refl refl
create_text-entries_of inflate (log msg) raw_data ne h =
    create_text-known inflate (sent_text (log msg) raw_data) PacketId.log _
      (ap (search_patterns at_newlines text_patterns) (raw_log msg raw_data)
        ∙ search_patterns-log msg h.1)
      refl refl

entries_of-frame :
    (p : TextPacket) → p ≢ server_hello → frame (write_text p) ≡ frame (text (sent_text p []))
unfolding write_text serialize fill get_raw entries_of type_of add
entries_of-frame server_hello ne = absurd (ne refl)
entries_of-frame quit ne = refl
entries_of-frame quit_to_exit ne = refl
entries_of-frame (join_request p) ne = refl
entries_of-frame (validate_world name) ne = refl
entries_of-frame (input str) ne = refl
entries_of-frame (log msg) ne = refl

type_of_lem : (p : TextPacket) → (type_of p ≡ generic_text_message) ⊎ (type_of p ≡ game_message)
unfolding type_of
type_of_lem server_hello = inr refl
type_of_lem quit = inr refl
type_of_lem quit_to_exit = inr refl
type_of_lem (join_request p) = inr refl
type_of_lem (validate_world name) = inr refl
type_of_lem (input str) = inl refl
type_of_lem (log msg) = inr refl

raw_text_positive : (p : TextPacket) → p ≢ server_hello → 0 < length (raw_text (sent_text p []))
unfolding get_raw entries_of
raw_text_positive server_hello ne = absurd (ne refl)
raw_text_positive quit ne = omega arith
raw_text_positive quit_to_exit ne = omega arith
raw_text_positive (join_request p) ne = omega arith
raw_text_positive (validate_world name) ne = omega arith
raw_text_positive (input str) ne = omega arith
raw_text_positive (log msg) ne = omega arith

module _ (inflate : Inflate) (print : Bool) where
  decode-hello :
      (t : ByteStream) × (decode at_newlines inflate print (frame (write_text server_hello))
        ≡ done (some (text_class (entries_of server_hello) (read_back server_hello))) t)
  unfolding decode write_text serialize fill is_registered read_text create_text read_uint
      entries_of read_back
  decode-hello = (_, refl)

  decode-text :
      (p : TextPacket)
      → p ≢ server_hello
      → CleanText p
      → length (raw_text (sent_text p [])) < 2 ^ 16
      → (t : ByteStream) × (decode at_newlines inflate print (frame (write_text p))
          ≡ done (some (text_class (entries_of p) (read_back p))) t)
  decode-text p ne h small =
      let back =
        decode-frame at_newlines inflate print (text (sent_text p []))
          (type_of_lem p, entries_of-AllPlain p h, raw_text_positive p ne, small) in
      (
        back.0,
        ap (decode at_newlines inflate print) (entries_of-frame p ne)
            ∙ back.1
            ∙ ap (λ (r : Option IPacket). done r back.0) (create_text-entries_of inflate p _ ne h),
      )

  -- Where the anchors of the patterns stand at newlines, each text packet that is sent is decoded as its
  -- own class, if its text has no delimiter and no newline and the message has less than 65536 bytes:
  -- ServerHello, Quit, QuitToExit and JoinRequest with all they had, but ValidateWorld, Input and Log with
  -- an empty text.
  pub decode-write_text :
      (p : TextPacket)
      → CleanText p
      → length (raw_text (sent_text p [])) < 2 ^ 16
      → (t : ByteStream) × (decode at_newlines inflate print (frame (write_text p))
          ≡ done (some (text_class (entries_of p) (read_back p))) t)
  decode-write_text server_hello h small = decode-hello
  decode-write_text quit h small = decode-text quit (λ q. cc) h small
  decode-write_text quit_to_exit h small = decode-text quit_to_exit (λ q. cc) h small
  decode-write_text (join_request p) h small = decode-text (join_request p) (λ q. cc) h small
  decode-write_text (validate_world name) h small =
      decode-text (validate_world name) (λ q. cc) h small
  decode-write_text (input str) h small = decode-text (input str) (λ q. cc) h small
  decode-write_text (log msg) h small = decode-text (log msg) (λ q. cc) h small
