-- ===== src/Ingest/Envelope/Tests.antt =====
-- An envelope of two items, and the theorems on it.
use bug_han.Prelude.{
  ◌≡◌, refl, Option, none, some, List, [], ◌∷◌, ◌++◌, Bytes, codes, arith, eqb, if◌then◌else◌,
}
use bug_han.Prelude.Int.{pos}
use bug_han.Ingest.Envelope.{Header, ItemHeader, Item, ok, parse_envelope}
use bug_han.Ingest.Envelope.Framing.{IsCapped, parse_envelope-IsCapped}
use bug_han.Ingest.Envelope.RoundTrip.{frames, parse_envelope-frames}

abbrev event : ItemHeader
event = record { type = codes "event"; length = pos 3 }

abbrev session : ItemHeader
session = record { type = codes "session"; length = pos 2 }

-- stand-ins for JSON: the header is its type's name
abbrev encode : ItemHeader → Bytes
encode h = h.type

abbrev decode : Bytes → Option ItemHeader
decode t =
    if eqb t (codes "event")
    then some event
    else if eqb t (codes "session")
    then some session
    else none

abbrev decode_header : Bytes → Option Header
decode_header t = some (record { event_id = t; dsn = [] })

abbrev two_items : List Item
two_items =
    record { header = event; payload = codes "a\nb" }
    ∷ record { header = session; payload = codes "{}" }
    ∷ []

parse_envelope-frames_example :
    parse_envelope decode decode_header (codes "7" ++ b'\n' ∷ frames decode encode two_items)
    ≡ ok (record { header = record { event_id = codes "7"; dsn = [] }; items = two_items })
parse_envelope-frames_example =
    parse_envelope-frames decode encode decode_header (codes "7")
      (record { event_id = codes "7"; dsn = [] }) two_items refl (refl, tt) refl
      (
        record {
          typed = refl;
          sized = refl;
          nonempty = omega arith;
          one_line = (refl, (refl, (refl, (refl, (refl, tt)))));
          some_line = refl;
          decodes = refl;
        },
        (
          record {
            typed = refl;
            sized = refl;
            nonempty = omega arith;
            one_line = (refl, (refl, (refl, (refl, (refl, (refl, (refl, tt)))))));
            some_line = refl;
            decodes = refl;
          },
          tt,
        ),
      )
      (omega arith)

parse_envelope-IsCapped_example :
    IsCapped decode (parse_envelope decode decode_header (codes "{}\nevent\nxyz"))
parse_envelope-IsCapped_example =
    parse_envelope-IsCapped decode decode_header (codes "{}\nevent\nxyz")
