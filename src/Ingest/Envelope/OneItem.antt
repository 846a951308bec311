-- ===== src/Ingest/Envelope/OneItem.antt =====
-- An envelope of one item without a length, whose payload is one line.
use bug_han.Prelude.{
  ℕ, suc, ◌≡◌, refl, ◌∙◌, false, Option, some, [], ◌∷◌, ◌++◌, Bytes, arith, is_empty, length, Lacks,
}
use bug_han.Prelude.Int.{pos}
use bug_han.Ingest.Envelope.{
  Header, ItemHeader, ok, next_line, payload_of, take_item, items_loop, parse_envelope,
}
use bug_han.Ingest.Envelope.RoundTrip.{next_line-line, items_loop-line}

next_line-Lacks : (l : Bytes) → Lacks b'\n' l → next_line l ≡ (l, [])
unfolding next_line
next_line-Lacks [] h = refl
next_line-Lacks (b ∷ l) (hb, h) = ground (arith, next_line-Lacks l h)

module _ (item_header : Bytes → Option ItemHeader) (ih : ItemHeader) where
  take_item-line :
      (line body : Bytes)
      → item_header line ≡ some ih
      → is_empty ih.type ≡ false
      → ih.length ≡ pos 0
      → Lacks b'\n' body
      → take_item item_header line body ≡ ok (record { header = ih; payload = body }, [])
  unfolding take_item payload_of
  take_item-line line body d t z h =
      let payload : payload_of ih.length body ≡ ok (body, []) =
        rw (z, next_line-Lacks body h) refl in
      rw (d, take_item, t, payload) refl

  items_loop-one :
      (line body : Bytes) (n : ℕ)
      → is_empty line ≡ false
      → Lacks b'\n' line
      → item_header line ≡ some ih
      → is_empty ih.type ≡ false
      → ih.length ≡ pos 0
      → Lacks b'\n' body
      → items_loop item_header (suc n) (line ++ b'\n' ∷ body) []
        ≡ ok (record { header = ih; payload = body } ∷ [])
  items_loop-one line body n some_line one d t z h =
      items_loop-line item_header (λ x. []) n line body [] (record { header = ih; payload = body })
        [] some_line one (take_item-line line body d t z h) (omega arith)
      ∙ unfold items_loop in refl

  -- the items of a header line, an item header line and a payload of one line
  pub parse_envelope-one :
      (envelope_header : Bytes → Option Header) (first line body : Bytes) (h : Header)
      → is_empty first ≡ false
      → Lacks b'\n' first
      → envelope_header first ≡ some h
      → is_empty line ≡ false
      → Lacks b'\n' line
      → item_header line ≡ some ih
      → is_empty ih.type ≡ false
      → ih.length ≡ pos 0
      → Lacks b'\n' body
      → parse_envelope item_header envelope_header (first ++ b'\n' ∷ (line ++ b'\n' ∷ body))
        ≡ ok (record { header = h; items = record { header = ih; payload = body } ∷ [] })
  unfolding parse_envelope
  parse_envelope-one envelope_header [] line body h some_first one_first e some_line one d t z b =
      absurd (ground arith)
  parse_envelope-one envelope_header (c ∷ first) [] body h some_first one_first e some_line one d t
        z b =
      absurd (ground arith)
  parse_envelope-one envelope_header (c ∷ first) (l ∷ line) body h some_first one_first e some_line
        one d t z b =
      rw
        (
          next_line-line (c ∷ first) (l ∷ line ++ b'\n' ∷ body) one_first,
          e,
          next_line-line (c ∷ first) (l ∷ line ++ b'\n' ∷ body) one_first,
          items_loop-one (l ∷ line) body (length (line ++ b'\n' ∷ body)) refl one d t z b,
        )
        refl
