-- ===== src/Ingest/Envelope.antt =====
-- internal/ingest/envelope.go: the framing of an envelope. The JSON decoders of the two kinds of header
-- are parameters; the loop over the items takes fuel, one unit for each byte that is left.
pub mod Framing
pub mod RoundTrip
pub mod OneItem
mod Tests
use bug_han.Prelude.{
  ℕ, zero, suc, ◌+◌, ◌-◌, Bool, true, false, not, ◌&&◌, Option, none, some, List, [], ◌∷◌, ◌++◌,
  Bytes, codes, ltb, leb, ◌==◌, if◌then◌else◌, eqb, is_empty, length, take, drop, cut_byte,
  cut_text,
}
use bug_han.Prelude.Int.{ℤ, pos, negsuc}

-- Header, without the attributes that nothing reads
pub record Header : Type 0 where
  pub event_id : Bytes
  pub dsn : Bytes

-- ItemHeader
pub record ItemHeader : Type 0 where
  pub type : Bytes
  pub length : ℤ

-- Item
pub record Item : Type 0 where
  pub header : ItemHeader
  pub payload : Bytes

-- Envelope
pub record Envelope : Type 0 where
  pub header : Header
  pub items : List Item

pub data ParseError : Type 0 where
  empty_envelope bad_header bad_item_header missing_type too_short out_of_fuel : ParseError

pub data Result {ℓ} (A : Type ℓ) : Type ℓ where
  ok : A → Result A
  err : ParseError → Result A

-- MaxEnvelopeItems
abbrev pub max_envelope_items : ℕ
max_envelope_items = 1000

-- nextLine, which never fails
pub next_line : Bytes → Bytes × Bytes
next_line text = elim (cut_byte b'\n' text) [ none ↦ (text, []) | some (l, r) ↦ (l, r) ]

-- the text behind the scheme
pub after_scheme : Bytes → Bytes
after_scheme dsn = elim (cut_text (codes "://") dsn) [ none ↦ dsn | some (l, r) ↦ r ]

-- the key without the deprecated secret
pub without_secret : Bytes → Bytes
without_secret key = elim (cut_byte b':' key) [ none ↦ key | some (k, secret) ↦ k ]

-- DSNPublicKey
pub dsn_public_key : Header → Bytes
dsn_public_key h = if is_empty h.dsn then [] else elim (cut_byte b'@' (after_scheme h.dsn)) [
  | none ↦ []
  | some (key, host) ↦ without_secret key
]

-- "A trailing newline after the payload is skipped if present."
pub skip_newline : Bytes → Bytes
skip_newline [] = []
skip_newline (b ∷ rest) = if b == b'\n' then rest else b ∷ rest

-- the payload of an item with the given `length`, and what is behind it
pub payload_of : ℤ → Bytes → Result (Bytes × Bytes)
payload_of (negsuc n) rest = ok (next_line rest)
payload_of (pos n) rest =
    if ltb 0 n
    then if ltb (length rest) n then err too_short else ok (take n rest, skip_newline (drop n rest))
    else ok (next_line rest)

module _ (item_header : Bytes → Option ItemHeader) where
  -- the item behind its header line, and what is behind it
  pub take_item : Bytes → Bytes → Result (Item × Bytes)
  take_item line rest = elim (item_header line) [
    | none ↦ err bad_item_header
    | some ih ↦ if is_empty ih.type then err missing_type else elim (payload_of ih.length rest) [
      | ok (payload, rest') ↦ ok (record { header = ih; payload = payload }, rest')
      | err e ↦ err e
    ]
  ]

  -- `for len(rest) > 0 && len(env.Items) < MaxEnvelopeItems`
  pub items_loop : ℕ → Bytes → List Item → Result (List Item)
  items_loop fuel [] items = ok items
  items_loop zero (b ∷ s) items =
      if ltb (length items) max_envelope_items then err out_of_fuel else ok items
  items_loop (suc fuel) (b ∷ s) items =
      let (line, rest) = next_line (b ∷ s) in
      let skip = items_loop fuel rest items in
      let next : Result (List Item) = elim (take_item line rest) [
        | ok (item, rest') ↦ items_loop fuel rest' (items ++ item ∷ [])
        | err e ↦ err e
      ] in
      if ltb (length items) max_envelope_items
      then if is_empty line then skip else next
      else ok items

  -- ParseEnvelope; the header line may be empty
  pub parse_envelope : (Bytes → Option Header) → Bytes → Result Envelope
  parse_envelope envelope_header text =
      let (line, rest) = next_line text in
      let decoded : Option Header =
        if is_empty line then some (record { event_id = []; dsn = [] }) else envelope_header line in
      if is_empty text then err empty_envelope else elim decoded [
        | none ↦ err bad_header
        | some h ↦ elim (items_loop (length rest) rest []) [
          | ok items ↦ ok (record { header = h; items = items })
          | err e ↦ err e
        ]
      ]
