-- ===== src/Document.antt =====
-- The formatted page of main.c: `struct span`, the lines of `struct manpage`, and the callbacks
-- through which mandoc's terminal formatter fills them.
pub mod Buffer
pub mod Layout
pub mod Page
mod Tests
use mangl.Prelude.{
  ℕ, zero, suc, ◌+◌, ◌-◌, ◌*◌, ◌%◌, ◌≡◌, Bool, true, false, Option, none, some, List, [], ◌∷◌, ◌++◌,
  arith, ltb, leb, ◌==◌, ◌&&◌, ◌||◌, if◌then◌else◌, length, take, set, replicate, Bytes,
}
use mangl.Run.{Run, done, fault, ◌>>=◌}

-- `struct span`; `type` is never used, and `next` is the rest of the list of a line's spans.
-- `buffer` is all of the allocated memory.
pub record Span : Type 0 where
  pub buffer : Bytes
  pub buffer_size : ℕ
  pub length_used : ℕ

-- What `calloc` gives.
abbrev pub empty_span : Span
empty_span = record { buffer = []; buffer_size = 0; length_used = 0 }

abbrev pub Line : Type 0
Line = List Span

-- `document` of `struct manpage`: the lines in use, `n_lines` of them, and the cells allocated.
pub record Document : Type 0 where
  pub lines : List Line
  pub lines_allocated : ℕ

abbrev pub no_document : Document
no_document = record { lines = []; lines_allocated = 0 }

abbrev pub n_lines : Document → ℕ
n_lines d = length d.lines

-- `#define STARTING_LINES 256`
abbrev pub starting_lines : ℕ
starting_lines = 256

abbrev pub allocate_line : Document → ℕ
allocate_line d =
    if n_lines d == 0
    then starting_lines
    else if leb d.lines_allocated (n_lines d)
    then d.lines_allocated * 2
    else d.lines_allocated

-- A write past the allocated cells is a fault.
unfoldable pub add_line : Document → Run Document
add_line d =
    if ltb (n_lines d) (allocate_line d)
    then done
        (record { lines = d.lines ++ (empty_span ∷ []) ∷ []; lines_allocated = allocate_line d })
    else fault

-- `#define STARTING_SPAN_SIZE 32`
abbrev pub starting_span_size : ℕ
starting_span_size = 32

-- The `switch` and the test behind it: `letter` and `letter_2`.
unfoldable pub translate : ℕ → ℕ × ℕ
translate letter =
    if letter == 0x2010
      || letter == 0x2013
      || letter == 0x2014
      || letter == 0x2022
      || letter == 0x2212
      || letter == 0x2500
      || letter == 0x2501
    then (b'-', 0)
    else if letter == 0x2217
    then (b'*', 0)
    else if letter == 0x2502 || letter == 0x2503
    then (b'|', 0)
    else if letter == 0x2265
    then (b'>', b'=')
    else if letter == 0x2264
    then (b'<', b'=')
    else if letter == 160 || letter == 0x2002
    then (b' ', 0)
    else if letter == 0x201c || letter == 0x201d
    then (b'"', 0)
    else if letter == 0x2018 || letter == 0x2019
    then (0x27, 0)
    else if letter == 0x27e8
    then (b'<', 0)
    else if letter == 0x27e9
    then (b'>', 0)
    else if leb 0x250c letter && leb letter 0x254b
    then (b'+', 0)
    else (letter, 0)

-- Room for `chars` more bytes and the NUL.
unfoldable pub grow_span : Span → ℕ → Span
grow_span s chars =
    if s.buffer_size == 0
    then record {
      buffer = replicate starting_span_size 0;
      buffer_size = starting_span_size;
      length_used = 0;
    }
    else if leb s.buffer_size (s.length_used + chars)
    then record s {
      buffer = take s.length_used s.buffer ++ replicate (s.buffer_size * 2 - s.length_used) 0;
      buffer_size = s.buffer_size * 2;
    }
    else s

-- `s->buffer[s->length++] = byte`; a write outside the buffer is a fault.
abbrev pub put_byte : Span → ℕ → Run Span
put_byte s byte =
    if ltb s.length_used (length s.buffer)
    then done
        (record s { buffer = set s.buffer s.length_used byte; length_used = s.length_used + 1 })
    else fault

unfoldable pub put_letters : Span → ℕ × ℕ → Run Span
put_letters s (letter, letter_2) =
    if ltb letter 256
    then if ltb 0 letter_2
      then put_byte (grow_span s 2) letter >>= (λ s'. put_byte s' letter_2)
      else put_byte (grow_span s 1) letter
    else done s

abbrev pub add_to_span : Span → ℕ → Run Span
add_to_span s letter = put_letters s (translate letter)

-- `add_to_span(get_last_span(p), letter)`, on the spans of the last line.
unfoldable pub add_to_line : Line → ℕ → Run Line
add_to_line [] letter = fault
add_to_line (s ∷ []) letter = add_to_span s letter >>= λ s'. done (s' ∷ [])
add_to_line (s ∷ t ∷ l) letter = add_to_line (t ∷ l) letter >>= λ l'. done (s ∷ l')

unfoldable pub add_to_lines : List Line → ℕ → Run (List Line)
add_to_lines [] letter = fault
add_to_lines (l ∷ []) letter = add_to_line l letter >>= λ l'. done (l' ∷ [])
add_to_lines (l ∷ k ∷ ls) letter = add_to_lines (k ∷ ls) letter >>= λ ls'. done (l ∷ ls')

unfoldable pub format_letter : Document → ℕ → Run Document
format_letter d letter = add_to_lines d.lines letter >>= λ ls. done (record d { lines = ls })

unfoldable pub format_advance : Document → ℕ → Run Document
format_advance d zero = done d
format_advance d (suc len) = format_letter d b' ' >>= λ d'. format_advance d' len

-- The callbacks of the formatter, in the order in which mandoc makes them.
pub data Event : Type 0 where
  letter : ℕ → Event
  advance : ℕ → Event
  endline : Event

unfoldable pub format_event : Document → Event → Run Document
format_event d (letter c) = format_letter d c
format_event d (advance len) = format_advance d len
format_event d endline = add_line d

unfoldable pub format_events : Document → List Event → Run Document
format_events d [] = done d
format_events d (e ∷ es) = format_event d e >>= λ d'. format_events d' es

-- The bytes of a C string: up to the first NUL.
abbrev pub c_string : Bytes → Bytes
c_string [] = []
c_string (c ∷ s) = if c == 0 then [] else c ∷ c_string s

-- `buffer == NULL || strlen(buffer) == 0`, and no further span.
abbrev pub is_blank : Line → Bool
is_blank [] = true
is_blank (s ∷ []) = length (c_string s.buffer) == 0
is_blank (s ∷ t ∷ l) = false

-- The last line goes if it is blank and not the only one.
unfoldable pub drop_last_blank : List Line → List Line
drop_last_blank [] = []
drop_last_blank (l ∷ []) = l ∷ []
drop_last_blank (l ∷ k ∷ []) = if is_blank k then l ∷ [] else l ∷ k ∷ []
drop_last_blank (l ∷ k ∷ j ∷ ls) = l ∷ drop_last_blank (k ∷ j ∷ ls)

-- The document that `load_manpage` makes of the calls of the formatter.
unfoldable pub format_document : List Event → Run Document
format_document es = add_line no_document >>= λ d.
    format_events d es >>= λ d'. done (record d' { lines = drop_last_blank d'.lines })
