-- ===== src/Document/Tests.antt =====
-- Runs of the formatter's callbacks, and the theorems about them at concrete inputs.
use mangl.Prelude.{inr, ◌<◌, ◌≡◌, refl, List, [], ◌∷◌, arith}
use mangl.Text.{codes}
use mangl.Run.{Run, done}
use mangl.Document.{
  Span, Document, empty_span, n_lines, translate, add_to_span, grow_span, put_letters, add_line,
  add_to_line, add_to_lines, format_letter, format_advance, format_event, format_events,
  format_document, drop_last_blank, Event, letter, advance, endline,
}
use mangl.Document.Buffer.{IsSpan, text, encoded, add_to_span_lem, empty_span-IsSpan}
use mangl.Document.Layout.{page_text, type_events, IsLines, IsDocument, Typed, format_events-Typed}
use mangl.Document.Page.{trim_last, format_document_lem}

program : Unit {0}
unfolding translate grow_span put_letters add_line add_to_line add_to_lines format_letter
    format_advance format_event format_events format_document drop_last_blank
program = tt

-- `a <= b` with a line of its own, then an empty line.
abbrev script : List Event
script = letter b'a' ∷ advance 1 ∷ letter 0x2264 ∷ letter 0x4e2d ∷ endline ∷ []

abbrev page : Run Document
page = format_document script

page_has_text : (d : Document) × (page ≡ done d) × (page_text d.lines ≡ codes "a <=" ∷ [])
unfolding program
page_has_text = (_, refl, refl)

format_document_lem_example :
    (d : Document) × (format_document script ≡ done d)
    × IsLines d.lines
    × (0 < n_lines d)
    × (page_text d.lines ≡ trim_last (type_events ([] ∷ []) script))
format_document_lem_example = format_document_lem script

add_to_span_lem_example :
    (s : Span) × (add_to_span empty_span 0x2265 ≡ done s)
    × IsSpan s
    × (text s ≡ encoded (translate 0x2265))
add_to_span_lem_example = add_to_span_lem empty_span 0x2265 empty_span-IsSpan

abbrev one_line : Document
one_line = record { lines = (empty_span ∷ []) ∷ []; lines_allocated = 256 }

one_line-IsDocument : IsDocument one_line
one_line-IsDocument = record {
  spans = (empty_span-IsSpan, tt);
  fits = omega arith;
  least = inr (omega arith);
}

format_events-Typed_example : Typed (type_events ([] ∷ []) script) (format_events one_line script)
format_events-Typed_example = format_events-Typed script one_line one_line-IsDocument (omega arith)
