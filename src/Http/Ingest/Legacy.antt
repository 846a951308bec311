-- ===== src/Http/Ingest/Legacy.antt =====
-- The legacy store endpoint: the envelope that it makes of a JSON event.
use bug_han.Prelude.{
  ◌≡◌, refl, Option, some, [], ◌∷◌, Bytes, codes, is_empty, false, Lacks, Lacks_by,
}
use bug_han.Prelude.Int.{pos}
use bug_han.Ingest.Envelope.{Header, ItemHeader, ok, parse_envelope}
use bug_han.Ingest.Envelope.OneItem.{parse_envelope-one}
use bug_han.Http.Ingest.{Site, store_envelope}

-- the header of the item of a stored event
abbrev pub event_header : ItemHeader
event_header = record { type = codes "event"; length = pos 0 }

-- Where the JSON encoder writes the id as one line that is not empty and the decoders read back the two
-- headers, the synthetic envelope of an event whose JSON is one line parses to exactly one item, an
-- event whose payload is the JSON.
pub store_envelope-one_item :
    (site : Site) (event_id : Option Bytes) (h : Header) (body : Bytes)
    → is_empty (site.encode_object event_id) ≡ false
    → Lacks b'\n' (site.encode_object event_id)
    → site.envelope_header (site.encode_object event_id) ≡ some h
    → site.item_header (codes "{\"type\":\"event\"}") ≡ some event_header
    → Lacks b'\n' body
    → parse_envelope site.item_header site.envelope_header (store_envelope site event_id body)
      ≡ ok (record { header = h; items = record { header = event_header; payload = body } ∷ [] })
unfolding store_envelope
store_envelope-one_item site event_id h body some_id one_id e i b =
    parse_envelope-one site.item_header event_header site.envelope_header
      (site.encode_object event_id) (codes "{\"type\":\"event\"}") body h some_id one_id e refl
      (Lacks_by b'\n' (codes "{\"type\":\"event\"}") refl) i refl refl b
