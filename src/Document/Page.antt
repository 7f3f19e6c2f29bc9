-- ===== src/Document/Page.antt =====
-- The document that `load_manpage` of main.c makes: the typed text less a blank last line.
use mangl.Prelude.{
  ℕ, zero, suc, ◌<◌, ◌≡◌, refl, sym, ap, ◌∙◌, inl, inr, List, [], ◌∷◌, ◌++◌, arith, ◌==◌,
  if◌then◌else◌, length, replicate, Bytes, append-nil, Bool-cases,
}
use mangl.Run.{done}
use mangl.Document.{
  Span, Line, Document, n_lines, no_document, Event, c_string, format_document, drop_last_blank,
  is_blank,
}
use mangl.Document.Buffer.{IsSpan, text, text-written}
use mangl.Document.Layout.{
  line_text, page_text, type_events, IsLine, IsLines, IsDocument, add_line-Typed,
  format_events-Typed,
}

-- The last line goes if nothing is written on it and it is not the only one.
abbrev pub trim_last : List Bytes → List Bytes
trim_last [] = []
trim_last (l ∷ []) = l ∷ []
trim_last (l ∷ k ∷ []) = if length (c_string k) == 0 then l ∷ [] else l ∷ k ∷ []
trim_last (l ∷ k ∷ j ∷ ls) = l ∷ trim_last (k ∷ j ∷ ls)

c_string-zeros : (xs : Bytes) (n : ℕ) → c_string (xs ++ replicate n 0) ≡ c_string xs
c_string-zeros [] zero = refl
c_string-zeros [] (suc n) = refl
c_string-zeros (x ∷ xs) n = ground (arith, c_string-zeros xs n)

-- What a reader of a span's buffer sees is the text of the span.
pub c_string-text : (s : Span) → IsSpan s → c_string s.buffer ≡ c_string (text s)
c_string-text s v =
    ap c_string v.memory ∙ c_string-zeros v.written v.free ∙ ap c_string (sym (text-written s v))

is_blank-line_text : (l : Line) → IsLine l → is_blank l ≡ (length (c_string (line_text l)) == 0)
is_blank-line_text [] h = absurd h
is_blank-line_text (s ∷ []) h =
    ap (λ xs. length xs == 0) (c_string-text s h ∙ ap c_string (sym (append-nil (text s))))
is_blank-line_text (s ∷ t ∷ l) h = absurd h

drop_last_blank_lem :
    (ls : List Line)
    → IsLines ls
    → 0 < length ls
    → IsLines (drop_last_blank ls)
      × (0 < length (drop_last_blank ls))
      × (page_text (drop_last_blank ls) ≡ trim_last (page_text ls))
unfolding drop_last_blank
drop_last_blank_lem [] v p = absurd (omega arith)
drop_last_blank_lem (l ∷ []) v p = (v, p, refl)
drop_last_blank_lem (l ∷ k ∷ []) v p = elim (Bool-cases (is_blank k)) [
  | inl e ↦ rw (e, sym (is_blank-line_text k v.1.0) ∙ e) ((v.0, tt), omega arith, refl)
  | inr e ↦ rw (e, sym (is_blank-line_text k v.1.0) ∙ e) (v, omega arith, refl)
]
drop_last_blank_lem (l ∷ k ∷ j ∷ ls) v p =
    let (v', p', e) = drop_last_blank_lem (k ∷ j ∷ ls) v.1 (omega arith) in
    ((v.0, v'), omega arith, ap (λ t. line_text l ∷ t) e)

no_document-IsDocument : IsDocument no_document
no_document-IsDocument = record { spans = tt; fits = omega arith; least = inl refl }

-- The document of a page: for every sequence of callbacks it is made without a fault, has a line,
-- all its buffers are valid, and its text is what a typewriter leaves, less a blank last line.
pub format_document_lem :
    (es : List Event)
    → (d : Document) × (format_document es ≡ done d)
      × IsLines d.lines
      × (0 < n_lines d)
      × (page_text d.lines ≡ trim_last (type_events ([] ∷ []) es))
unfolding format_document
format_document_lem es =
    let (d₀, ran₀, v₀, l₀, e₀) = add_line-Typed no_document no_document-IsDocument in
    let (d, ran, v, l, e) = format_events-Typed es d₀ v₀ l₀ in
    let (v', l', e') = drop_last_blank_lem d.lines v.spans l in
    (
      record d { lines = drop_last_blank d.lines },
      rw (ran₀, ran),
      v',
      l',
      e' ∙ ap trim_last (e ∙ ap (λ ls. type_events ls es) e₀),
    )
