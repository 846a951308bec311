-- ===== src/Ingest/Envelope/RoundTrip.antt =====
-- Items that are framed by their length come back from the parser, whatever bytes they carry.
use bug_han.Prelude.{
  ℕ, zero, suc, ◌+◌, ◌<◌, ◌≤◌, ◌≡◌, refl, ◌∙◌, ap, true, false, Option, some, List, [], ◌∷◌, ◌++◌,
  append_assoc, append-nil, Bytes, arith, ltb, is_empty, length, Lacks, All, length-append,
  take-append_length, drop-append_length,
}
use bug_han.Prelude.Int.{pos}
use bug_han.Ingest.Envelope.{
  Header, ItemHeader, Item, ok, max_envelope_items, next_line, skip_newline, payload_of, take_item,
  items_loop, parse_envelope,
}

pub next_line-line : (l s : Bytes) → Lacks b'\n' l → next_line (l ++ b'\n' ∷ s) ≡ (l, s)
unfolding next_line
next_line-line [] s h = refl
next_line-line (b ∷ l) s (hb, h) = ground (arith, next_line-line l s h)

payload_of-sized :
    (p s : Bytes) → 0 < length p → payload_of (pos (length p)) (p ++ b'\n' ∷ s) ≡ ok (p, s)
unfolding payload_of skip_newline
payload_of-sized p s some_bytes =
    let positive : ltb 0 (length p) ≡ true = ground arith in
    let fits : ltb (length (p ++ b'\n' ∷ s)) (length p) ≡ false =
      ground (arith, length-append p (b'\n' ∷ s)) in
    rw (positive, fits, take-append_length p (b'\n' ∷ s), drop-append_length p (b'\n' ∷ s)) refl

module _ (item_header : Bytes → Option ItemHeader) (encode : ItemHeader → Bytes) where
  -- an item whose header gives its length, and whose encoded header is one line that decodes to it
  pub record IsFramed (i : Item) : Type 0 where
    pub typed : is_empty i.header.type ≡ false
    pub sized : i.header.length ≡ pos (length i.payload)
    pub nonempty : 0 < length i.payload
    pub one_line : Lacks b'\n' (encode i.header)
    pub some_line : is_empty (encode i.header) ≡ false
    pub decodes : item_header (encode i.header) ≡ some i.header

  -- The framing of the specification: header line, payload, newline.
  pub frames : List Item → Bytes
  frames [] = []
  frames (i ∷ items) = encode i.header ++ (b'\n' ∷ (i.payload ++ (b'\n' ∷ frames items)))

  take_item-framed :
      (i : Item) (s : Bytes)
      → IsFramed i
      → take_item item_header (encode i.header) (i.payload ++ b'\n' ∷ s) ≡ ok (i, s)
  unfolding take_item
  take_item-framed i s f =
      let payload : payload_of i.header.length (i.payload ++ b'\n' ∷ s) ≡ ok (i.payload, s) =
        ap (λ z. payload_of z (i.payload ++ b'\n' ∷ s)) f.sized
        ∙ payload_of-sized i.payload s f.nonempty in
      rw (f.decodes, take_item, f.typed, payload) refl

  -- one round of the loop
  pub items_loop-line :
      (fuel : ℕ) (line s rest : Bytes) (i : Item) (items : List Item)
      → is_empty line ≡ false
      → Lacks b'\n' line
      → take_item item_header line s ≡ ok (i, rest)
      → length items < max_envelope_items
      → items_loop item_header (suc fuel) (line ++ b'\n' ∷ s) items
        ≡ items_loop item_header fuel rest (items ++ i ∷ [])
  unfolding items_loop
  items_loop-line fuel [] s rest i items e one t room = absurd (ground arith)
  items_loop-line fuel (b ∷ l) s rest i items e one t room =
      let within : ltb (length items) max_envelope_items ≡ true = ground arith in
      rw (next_line-line (b ∷ l) s one, within, t) refl

  length-frames :
      (i : Item) (items : List Item)
      → length (frames (i ∷ items))
        ≡ length (encode i.header) + suc (length i.payload + suc (length (frames items)))
  unfolding frames
  length-frames i items =
      length-append (encode i.header) (b'\n' ∷ (i.payload ++ b'\n' ∷ frames items))
      ∙ ap (λ n. length (encode i.header) + suc n) (length-append i.payload (b'\n' ∷ frames items))

  round :
      (fuel : ℕ) (i : Item) (items done : List Item)
      → IsFramed i
      → length done < max_envelope_items
      → items_loop item_header (suc fuel) (frames (i ∷ items)) done
        ≡ items_loop item_header fuel (frames items) (done ++ i ∷ [])
  unfolding frames
  round fuel i items done f room =
      items_loop-line fuel (encode i.header) (i.payload ++ b'\n' ∷ frames items) (frames items) i
        done f.some_line f.one_line (take_item-framed i (frames items) f) room

  items_loop-frames :
      (fuel : ℕ) (items done : List Item)
      → All IsFramed items
      → length (frames items) ≤ fuel
      → length done + length items ≤ max_envelope_items
      → items_loop item_header fuel (frames items) done ≡ ok (done ++ items)
  items_loop-frames fuel [] done h le limit = unfold items_loop frames in rw append-nil refl
  items_loop-frames zero (i ∷ items) done (f, h) le limit =
      absurd (omega (arith, length-frames i items))
  items_loop-frames (suc fuel) (i ∷ items) done (f, h) le limit =
      round fuel i items done f (omega arith)
      ∙ items_loop-frames fuel items (done ++ i ∷ []) h (omega (arith, length-frames i items))
          (omega (arith, length-append done (i ∷ [])))
      ∙ rw append_assoc refl

  -- An envelope of at most 1000 items, each framed by its length, parses to these items behind the
  -- decoded header, whatever bytes the payloads hold, newlines included.
  pub parse_envelope-frames :
      (envelope_header : Bytes → Option Header) (line : Bytes) (h : Header) (items : List Item)
      → is_empty line ≡ false
      → Lacks b'\n' line
      → envelope_header line ≡ some h
      → All IsFramed items
      → length items ≤ max_envelope_items
      → parse_envelope item_header envelope_header (line ++ b'\n' ∷ frames items)
        ≡ ok (record { header = h; items = items })
  unfolding parse_envelope
  parse_envelope-frames envelope_header [] h items given one decodes framed limit =
      absurd (ground arith)
  parse_envelope-frames envelope_header (b ∷ l) h items given one decodes framed limit =
      rw
        (
          next_line-line (b ∷ l) (frames items) one,
          decodes,
          next_line-line (b ∷ l) (frames items) one,
          items_loop-frames (length (frames items)) items [] framed (omega arith) (omega arith),
        )
        refl
