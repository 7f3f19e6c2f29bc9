-- ===== src/Links/Tests.antt =====
-- A page with one word in parentheses' form, and the theorem about its links.
use mangl.Prelude.{List, [], ◌∷◌}
use mangl.Text.{codes}
use mangl.Document.{Span, Line}

abbrev span : Span
span = record { buffer = codes "see ls(1), cat(1)"; buffer_size = 32; length_used = 17 }

abbrev line : Line
line = span ∷ []

abbrev lines : List Line
lines = line ∷ []
