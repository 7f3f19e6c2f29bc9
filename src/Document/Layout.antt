-- ===== src/Document/Layout.antt =====
-- The formatter's callbacks write like a typewriter: letters go to the end of the last line.
use mangl.Prelude.{
  ℕ, zero, suc, ◌≤◌, ◌<◌, ◌≡◌, refl, sym, ap, ◌∙◌, true, ◌⊎◌, inl, inr, List, [], ◌∷◌, ◌++◌, map,
  arith, ltb, length, replicate, Bytes, append_assoc, append-nil, length-append,
}
use mangl.Run.{Run, done}
use mangl.Document.{
  Line, Document, n_lines, empty_span, allocate_line, add_line, add_to_line, add_to_lines,
  format_letter, format_advance, Event, letter, advance, endline, format_event, format_events,
  translate, starting_lines,
}
use mangl.Document.Buffer.{IsSpan, text, encoded, add_to_span_lem, empty_span-IsSpan}

abbrev pub line_text : Line → Bytes
line_text [] = []
line_text (s ∷ l) = text s ++ line_text l

abbrev pub page_text : List Line → List Bytes
page_text ls = map line_text ls

-- The abstract page: its lines as text.
abbrev pub append_last : List Bytes → Bytes → List Bytes
append_last [] b = []
append_last (l ∷ []) b = (l ++ b) ∷ []
append_last (l ∷ k ∷ ls) b = l ∷ append_last (k ∷ ls) b

abbrev pub type_event : List Bytes → Event → List Bytes
type_event ls (letter c) = append_last ls (encoded (translate c))
type_event ls (advance n) = append_last ls (replicate n b' ')
type_event ls endline = ls ++ [] ∷ []

abbrev pub type_events : List Bytes → List Event → List Bytes
type_events ls [] = ls
type_events ls (e ∷ es) = type_events (type_event ls e) es

-- Every line has exactly one span, and it is valid.
abbrev pub IsLine : Line → Type 0
IsLine [] = ⊥
IsLine (s ∷ []) = IsSpan s
IsLine (s ∷ t ∷ l) = ⊥

abbrev pub IsLines : List Line → Type 0
IsLines [] = Unit {0}
IsLines (l ∷ ls) = IsLine l × IsLines ls

pub record IsDocument (d : Document) : Type 0 where
  pub spans : IsLines d.lines
  pub fits : n_lines d ≤ d.lines_allocated
  pub least : (n_lines d ≡ 0) ⊎ (starting_lines ≤ d.lines_allocated)

IsLines-append : (ls ks : List Line) → IsLines ls → IsLines ks → IsLines (ls ++ ks)
IsLines-append [] ks h k = k
IsLines-append (l ∷ ls) ks h k = (h.0, IsLines-append ls ks h.1 k)

-- The last line after a letter.
add_to_line_lem :
    (l : Line) (c : ℕ)
    → IsLine l
    → (l' : Line) × (add_to_line l c ≡ done l')
      × IsLine l'
      × (line_text l' ≡ line_text l ++ encoded (translate c))
unfolding add_to_line
add_to_line_lem [] c h = absurd h
add_to_line_lem (s ∷ []) c h =
    let (s', ran, v, e) = add_to_span_lem s c h in
    (
      s' ∷ [],
      rw ran,
      v,
      append-nil (text s') ∙ e ∙ ap (λ xs. xs ++ encoded (translate c)) (sym (append-nil (text s))),
    )
add_to_line_lem (s ∷ t ∷ l) c h = absurd h

add_to_lines_lem :
    (ls : List Line) (c : ℕ)
    → IsLines ls
    → 0 < length ls
    → (ls' : List Line) × (add_to_lines ls c ≡ done ls')
      × IsLines ls'
      × (page_text ls' ≡ append_last (page_text ls) (encoded (translate c)))
      × (length ls' ≡ length ls)
unfolding add_to_lines
add_to_lines_lem [] c h l = absurd (omega arith)
add_to_lines_lem (l ∷ []) c h p =
    let (l', ran, v, e) = add_to_line_lem l c h.0 in
    (l' ∷ [], rw ran, (v, tt), ap (λ t. t ∷ []) e, refl)
add_to_lines_lem (l ∷ k ∷ ls) c h p =
    let (ls', ran, v, e, n) = add_to_lines_lem (k ∷ ls) c h.1 (omega arith) in
    (l ∷ ls', rw ran, (h.0, v), ap (λ t. line_text l ∷ t) e, ap suc n)

-- A document in use after a step: no fault, still valid, and the text that the typewriter has.
abbrev pub Typed : List Bytes → Run Document → Type 0
Typed expected r =
    (d' : Document) × (r ≡ done d')
    × IsDocument d'
    × (0 < n_lines d')
    × (page_text d'.lines ≡ expected)

format_letter-Typed :
    (d : Document) (c : ℕ)
    → IsDocument d
    → 0 < n_lines d
    → Typed (append_last (page_text d.lines) (encoded (translate c))) (format_letter d c)
unfolding format_letter
format_letter-Typed d c v l =
    let (ls', ran, valid, e, n) = add_to_lines_lem d.lines c v.spans l in
    (
      record d { lines = ls' },
      rw ran,
      record {
        spans = valid;
        fits = omega (arith, n, v.fits);
        least = elim v.least [ inl z ↦ inl (n ∙ z) | inr b ↦ inr b ];
      },
      omega (arith, n),
      e,
    )

append_last-append_last :
    (ls : List Bytes) (a b : Bytes) → append_last (append_last ls a) b ≡ append_last ls (a ++ b)
append_last-append_last [] a b = refl
append_last-append_last (l ∷ []) a b = ap (λ t. t ∷ []) (append_assoc l a b)
append_last-append_last (l ∷ k ∷ []) a b = ap (λ t. l ∷ t) (append_last-append_last (k ∷ []) a b)
append_last-append_last (l ∷ k ∷ j ∷ ls) a b =
    ap (λ t. l ∷ t) (append_last-append_last (k ∷ j ∷ ls) a b)

append_last-nil : (ls : List Bytes) → append_last ls [] ≡ ls
append_last-nil [] = refl
append_last-nil (l ∷ []) = ap (λ t. t ∷ []) (append-nil l)
append_last-nil (l ∷ k ∷ ls) = ap (λ t. l ∷ t) (append_last-nil (k ∷ ls))

encoded-space : encoded (translate b' ') ≡ b' ' ∷ []
unfolding translate
encoded-space = refl

format_advance-Typed :
    (d : Document) (n : ℕ)
    → IsDocument d
    → 0 < n_lines d
    → Typed (append_last (page_text d.lines) (replicate n b' ')) (format_advance d n)
unfolding format_advance
format_advance-Typed d zero v l = (d, refl, v, l, sym (append_last-nil (page_text d.lines)))
format_advance-Typed d (suc n) v l =
    let (d', ran, v', l', e) = format_letter-Typed d b' ' v l in
    let (d'', ran', v'', l'', e') = format_advance-Typed d' n v' l' in
    (
      d'',
      rw ran ran',
      v'',
      l'',
      e'
          ∙ ap (λ ls. append_last ls (replicate n b' '))
              (e ∙ ap (append_last (page_text d.lines)) encoded-space)
          ∙ append_last-append_last (page_text d.lines) (b' ' ∷ []) (replicate n b' '),
    )

page_text-append : (ls ks : List Line) → page_text (ls ++ ks) ≡ page_text ls ++ page_text ks
page_text-append [] ks = refl
page_text-append (l ∷ ls) ks = ap (λ t. line_text l ∷ t) (page_text-append ls ks)

-- There is always a cell for one more line.
allocate_line-lt : (d : Document) → IsDocument d → n_lines d < allocate_line d
allocate_line-lt d v = elim v.least [
  | inl z ↦ ground (arith, v.fits)
  | inr b ↦ ground (arith, v.fits)
]

pub add_line-Typed :
    (d : Document) → IsDocument d → Typed (page_text d.lines ++ [] ∷ []) (add_line d)
unfolding add_line
add_line-Typed d v =
    let room : ltb (n_lines d) (allocate_line d) ≡ true = ground (arith, allocate_line-lt d v) in
    let grown = length-append d.lines ((empty_span ∷ []) ∷ []) in
    (
      record { lines = d.lines ++ (empty_span ∷ []) ∷ []; lines_allocated = allocate_line d },
      rw room,
      record {
        spans = IsLines-append d.lines ((empty_span ∷ []) ∷ []) v.spans (empty_span-IsSpan, tt);
        fits = omega (arith, grown, allocate_line-lt d v);
        least = inr (least-allocate_line);
      },
      omega (arith, grown),
      page_text-append d.lines ((empty_span ∷ []) ∷ []),
    )
  where
    least-allocate_line : starting_lines ≤ allocate_line d
    least-allocate_line = elim v.least [
      | inl z ↦ ground (arith, v.fits)
      | inr b ↦ ground (arith, v.fits)
    ]

format_event-Typed :
    (d : Document) (e : Event)
    → IsDocument d
    → 0 < n_lines d
    → Typed (type_event (page_text d.lines) e) (format_event d e)
unfolding format_event
format_event-Typed d (letter c) v l = format_letter-Typed d c v l
format_event-Typed d (advance n) v l = format_advance-Typed d n v l
format_event-Typed d endline v l = add_line-Typed d v

-- Any sequence of callbacks on a page that has a line runs without a fault, keeps every buffer
-- valid, and leaves the text that a typewriter would.
pub format_events-Typed :
    (es : List Event) (d : Document)
    → IsDocument d
    → 0 < n_lines d
    → Typed (type_events (page_text d.lines) es) (format_events d es)
unfolding format_events
format_events-Typed [] d v l = (d, refl, v, l, refl)
format_events-Typed (e ∷ es) d v l =
    let (d', ran, v', l', t) = format_event-Typed d e v l in
    let (d'', ran', v'', l'', t') = format_events-Typed es d' v' l' in
    (d'', rw ran ran', v'', l'', t' ∙ ap (λ ls. type_events ls es) t)
