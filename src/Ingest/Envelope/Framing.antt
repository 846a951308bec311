-- ===== src/Ingest/Envelope/Framing.antt =====
-- Parsing an envelope ends, its items are bounded, and items framed by their length come back.
use bug_han.Prelude.{
  ℕ, zero, suc, ◌≤◌, ◌≡◌, ◌≢◌, Option, none, some, List, [], ◌∷◌, ◌++◌, Bytes, arith, ltb, ◌==◌,
  if◌then◌else◌, is_empty, length, drop, Bool-cases, inl, inr, length-append, length-drop,
}
use bug_han.Prelude.Int.{ℤ, pos, negsuc}
use bug_han.Ingest.Envelope.{
  Header, ItemHeader, Item, Envelope, Result, ok, err, bad_header, bad_item_header, missing_type,
  out_of_fuel, max_envelope_items, next_line, skip_newline, payload_of, take_item, items_loop,
  parse_envelope,
}

next_line-cons :
    (b : ℕ) (s : Bytes)
    → next_line (b ∷ s) ≡ (if b == b'\n' then ([], s) else (b ∷ (next_line s).0, (next_line s).1))
unfolding next_line
next_line-cons b s = ground arith

length-next_line : (s : Bytes) → length (next_line s).1 ≤ length s
length-next_line [] = unfold next_line in omega arith
length-next_line (b ∷ s) = ground (arith, next_line-cons b s, length-next_line s)

next_line_shorter : (b : ℕ) (s : Bytes) → length (next_line (b ∷ s)).1 ≤ length s
next_line_shorter b s = ground (arith, next_line-cons b s, length-next_line s)

length-skip_newline : (s : Bytes) → length (skip_newline s) ≤ length s
unfolding skip_newline
length-skip_newline [] = omega arith
length-skip_newline (b ∷ s) = ground arith

-- what is behind a payload is no longer than what the payload was taken from
abbrev NoLonger : ℕ → Result (Bytes × Bytes) → Type 0
NoLonger n (ok (p, rest)) = length rest ≤ n
NoLonger n (err e) = e ≢ out_of_fuel

payload_of-NoLonger : (z : ℤ) (rest : Bytes) → NoLonger (length rest) (payload_of z rest)
unfolding payload_of
payload_of-NoLonger (negsuc n) rest = length-next_line rest
payload_of-NoLonger (pos n) rest = elim (Bool-cases (ltb 0 n)) [
  | inr e ↦ rw e (length-next_line rest)
  | inl e ↦ rw e (elim (Bool-cases (ltb (length rest) n)) [
    | inl f ↦ rw f (λ p. cc)
    | inr f ↦ rw f (omega (arith, length-skip_newline (drop n rest), length-drop n rest))
  ])
]

module _ (item_header : Bytes → Option ItemHeader) where
  abbrev ItemNoLonger : ℕ → Result (Item × Bytes) → Type 0
  ItemNoLonger n (ok (i, rest)) = length rest ≤ n
  ItemNoLonger n (err e) = e ≢ out_of_fuel

  with_payload :
      (n : ℕ) (ih : ItemHeader) (r : Result (Bytes × Bytes))
      → NoLonger n r
      → ItemNoLonger n (elim r [
        | ok (payload, rest') ↦ ok (record { header = ih; payload = payload }, rest')
        | err e ↦ err e
      ])
  with_payload n ih (ok (p, rest)) h = h
  with_payload n ih (err e) h = h

  typed :
      (o : Option ItemHeader) (rest : Bytes)
      → ItemNoLonger (length rest) (elim o [
        | none ↦ err bad_item_header
        | some ih ↦
            if is_empty ih.type then err missing_type else elim (payload_of ih.length rest) [
              | ok (payload, rest') ↦ ok (record { header = ih; payload = payload }, rest')
              | err e ↦ err e
            ]
      ])
  typed none rest = λ p. cc
  typed (some ih) rest = elim (Bool-cases (is_empty ih.type)) [
    | inl e ↦ rw e (λ p. cc)
    | inr e ↦ rw e (
        with_payload (length rest) ih (payload_of ih.length rest)
          (payload_of-NoLonger ih.length rest))
  ]

  take_item-NoLonger :
      (line rest : Bytes) → ItemNoLonger (length rest) (take_item item_header line rest)
  unfolding take_item
  take_item-NoLonger line rest = typed (item_header line) rest

  -- at most as many items as the cap, or a refusal that is not for want of fuel
  abbrev AreCapped : Result (List Item) → Type 0
  AreCapped (ok items) = length items ≤ max_envelope_items
  AreCapped (err e) = e ≢ out_of_fuel

  next-AreCapped :
      (n : ℕ) (r : Result (Item × Bytes)) (f : Item → Bytes → Result (List Item))
      → ItemNoLonger n r
      → ((i : Item) (rest : Bytes) → length rest ≤ n → AreCapped (f i rest))
      → AreCapped (elim r [ ok (item, rest') ↦ f item rest' | err e ↦ err e ])
  next-AreCapped n (ok (i, rest)) f h k = k i rest h
  next-AreCapped n (err e) f h k = h

  items_loop-AreCapped :
      (fuel : ℕ) (s : Bytes) (items : List Item)
      → length s ≤ fuel
      → length items ≤ max_envelope_items
      → AreCapped (items_loop item_header fuel s items)
  unfolding items_loop
  items_loop-AreCapped fuel [] items h cap = cap
  items_loop-AreCapped zero (b ∷ s) items h cap = absurd (omega arith)
  items_loop-AreCapped (suc fuel) (b ∷ s) items h cap =
      let shorter = next_line_shorter b s in
      elim (Bool-cases (ltb (length items) max_envelope_items)) [
        | inr full ↦ rw full cap
        | inl room ↦ rw room (elim (Bool-cases (is_empty (next_line (b ∷ s)).0)) [
          | inl e ↦ rw e (items_loop-AreCapped fuel (next_line (b ∷ s)).1 items (omega arith) cap)
          | inr e ↦ rw e (
              next-AreCapped _ (take_item item_header (next_line (b ∷ s)).0 (next_line (b ∷ s)).1)
                (λ i rest. items_loop item_header fuel rest (items ++ i ∷ []))
                (take_item-NoLonger (next_line (b ∷ s)).0 (next_line (b ∷ s)).1)
                (λ i rest le.
                  items_loop-AreCapped fuel rest (items ++ i ∷ []) (omega arith)
                    (ground (arith, length-append items (i ∷ [])))))
        ])
      ]

  -- an envelope with at most 1000 items, or a refusal that is not for want of fuel
  abbrev pub IsCapped : Result Envelope → Type 0
  IsCapped (ok env) = length env.items ≤ max_envelope_items
  IsCapped (err e) = e ≢ out_of_fuel

  items-IsCapped :
      (h : Header) (r : Result (List Item))
      → AreCapped r
      → IsCapped (elim r [ ok items ↦ ok (record { header = h; items = items }) | err e ↦ err e ])
  items-IsCapped h (ok items) k = k
  items-IsCapped h (err e) k = k

  header-IsCapped :
      (o : Option Header) (rest : Bytes)
      → IsCapped (elim o [
        | none ↦ err bad_header
        | some h ↦ elim (items_loop item_header (length rest) rest []) [
          | ok items ↦ ok (record { header = h; items = items })
          | err e ↦ err e
        ]
      ])
  header-IsCapped none rest = λ p. cc
  header-IsCapped (some h) rest =
      items-IsCapped h (items_loop item_header (length rest) rest [])
        (items_loop-AreCapped (length rest) rest [] (omega arith) (omega arith))

  -- Parsing any text ends before the fuel does, and a parsed envelope has at most 1000 items, whatever
  -- the JSON decoders accept.
  pub parse_envelope-IsCapped :
      (envelope_header : Bytes → Option Header) (text : Bytes)
      → IsCapped (parse_envelope item_header envelope_header text)
  unfolding parse_envelope
  parse_envelope-IsCapped envelope_header [] = λ p. cc
  parse_envelope-IsCapped envelope_header (b ∷ s) = header-IsCapped _ (next_line (b ∷ s)).1
