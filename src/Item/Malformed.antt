-- ===== src/Item/Malformed.antt =====
-- item_database.cpp: parse on input that is no items.dat.
use gtproxy.Prelude.{
  ℕ, zero, suc, ◌<◌, ◌≡◌, refl, sym, ap, ◌∙◌, subst, arith, true, List, [], ◌∷◌, ◌++◌, append_assoc,
  append-nil, some, Bytes, length, replicate,
}
use gtproxy.Utils.ByteStream.{ByteStream, done, to_le, of_span, read_uint, size_mod, left}
use gtproxy.Utils.ByteStream.Reads.{
  left-At, At, At-of_span, At-advance, advance, read_uint-to_le, bind_done,
}
use gtproxy.Utils.ByteStream.Fields.{Half, Word}
use gtproxy.Utils.ByteStream.Safety.{At-IsGood, IsGood, Ends, IsSafe-done, IsGood-next}
use gtproxy.Item.Info.{ItemInfo}
use gtproxy.Item.{ItemDatabase, clear, push_back, parse_items, parse_count, parse_header, parse}
use gtproxy.Item.Reading.{parse_item, read_item}
use gtproxy.Item.Safety.{read_item-IsSafe}
use gtproxy.Item.Ended.{parse_item-Idle, blank_item}

-- The reader gives an item, wherever it starts.
parse_item-done :
    (version : ℕ) (s : ByteStream)
    → IsGood s
    → (x : ItemInfo) × (t : ByteStream) × (parse_item version s ≡ done (some x) t) × IsGood t
unfolding parse_item
parse_item-done version s g =
    let (x, t, e) = IsSafe-done (read_item version) s (read_item-IsSafe version) g in
    let (d, l, b) : Ends s (done x t) = subst (Ends s) e (read_item-IsSafe version s g) in
    (x, t, bind_done (read_item version) _ s e, IsGood-next s t g d b)

-- Every round adds an item.
parse_items-length :
    (n : ℕ) (db : ItemDatabase) (s : ByteStream)
    → IsGood s
    → (xs : List ItemInfo) × (t : ByteStream) × (parse_items n db s
        ≡ done (true, record db { items = db.items ++ xs }) t)
      × (length xs ≡ n)
unfolding parse_items
parse_items-length zero db s g = (
  [],
  s,
  ap (λ (l : List ItemInfo). done (true, record db { items = l }) s) (sym (append-nil db.items)),
  refl,
)
parse_items-length (suc n) db s g =
    let (x, t, e, gt) = parse_item-done db.version s g in
    let (xs, u, f, l) = parse_items-length n (push_back x db) t gt in
    (
      x ∷ xs,
      u,
      bind_done (parse_item db.version) _ s e
          ∙ f
          ∙ ap (λ (l : List ItemInfo). done (true, record db { items = l }) u)
              (append_assoc db.items (x ∷ []) xs),
      ap suc l,
    )

abbrev pub header_bytes : (version count : ℕ) → Bytes
header_bytes version count = to_le 2 version ++ to_le 4 count

abbrev empty_database : (version count : ℕ) → ItemDatabase
empty_database version count = record { version = version; count = count; items = [] }

module _ (version count : ℕ) (h : Half version) (k : Word count) (body : Bytes)
    (old : ItemDatabase) where
  -- The stream behind the header.
  abbrev behind : ByteStream
  behind = advance 6 (of_span (header_bytes version count ++ body))

  behind-At : length (header_bytes version count ++ body) < size_mod → At behind body
  unfolding to_le
  behind-At size =
      At-advance (of_span (header_bytes version count ++ body)) (header_bytes version count) body
        (At-of_span (header_bytes version count ++ body) size)

  -- Behind the header, the loop runs.
  parse-behind :
      length (header_bytes version count ++ body) < size_mod
      → parse (header_bytes version count ++ body) old
        ≡ parse_items count (empty_database version count) behind
  unfolding parse parse_header parse_count clear to_le
  parse-behind size =
      let at = At-of_span (header_bytes version count ++ body) size in
      bind_done (read_uint 2 0) _ (of_span (header_bytes version count ++ body))
        (read_uint-to_le 2 version 0 h _ (to_le 4 count ++ body) at)
      ∙ bind_done (read_uint 4 0) _ (advance 2 (of_span (header_bytes version count ++ body))) (
          read_uint-to_le 4 count 0 k _ body (
            At-advance (of_span (header_bytes version count ++ body)) (to_le 2 version)
              (to_le 4 count ++ body) at))

  -- Whatever stands behind the version and the count, `parse` stays in the buffer, succeeds, and
  -- keeps as many items as the count says. The two fit their fields, and the number of bytes is a
  -- std::size_t.
  pub parse-length :
      length (header_bytes version count ++ body) < size_mod
      → (xs : List ItemInfo) × (t : ByteStream) × (parse (header_bytes version count ++ body) old
          ≡ done (true, record { version = version; count = count; items = xs }) t)
        × (length xs ≡ count)
  parse-length size =
      let (xs, t, e, l) =
        parse_items-length count (empty_database version count) behind
          (At-IsGood behind body (behind-At size)) in
      (xs, t, parse-behind size ∙ e, l)

-- Where the input has ended, every round adds a blank item.
parse_items-blank :
    (n : ℕ) (db : ItemDatabase) (s : ByteStream)
    → left s ≡ 0
    → parse_items n db s ≡ done (true, record db { items = db.items ++ replicate n blank_item }) s
unfolding parse_items
parse_items-blank zero db s e =
    ap (λ (l : List ItemInfo). done (true, record db { items = l }) s) (sym (append-nil db.items))
parse_items-blank (suc n) db s e =
    bind_done (parse_item db.version) _ s (parse_item-Idle db.version s e)
    ∙ parse_items-blank n (push_back blank_item db) s e
    ∙ ap (λ (l : List ItemInfo). done (true, record db { items = l }) s)
        (append_assoc db.items (blank_item ∷ []) (replicate n blank_item))

-- A file that ends behind its header is accepted: the database then holds as many items as the
-- count says, all of them zero, with the id 0, and without a name.
pub parse-header_bytes :
    (version count : ℕ) (old : ItemDatabase)
    → Half version
    → Word count
    → parse (header_bytes version count) old
      ≡ done
          (true, record { version = version; count = count; items = replicate count blank_item })
          (advance 6 (of_span (header_bytes version count)))
unfolding to_le
parse-header_bytes version count old h k =
    parse-behind version count h k [] old (omega arith)
    ∙ parse_items-blank count (empty_database version count) (behind version count h k [] old) (
        left-At (behind version count h k [] old) []
          (behind-At version count h k [] old (omega arith)))
