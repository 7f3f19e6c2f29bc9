-- ===== src/PageName/Split.antt =====
-- `get_page_name_and_section` recovers what the name of a manual page's file is made of.
use mangl.Prelude.{
  ℕ, zero, suc, ◌+◌, ◌-◌, ◌≤◌, ◌<◌, ◌≡◌, refl, ◌∙◌, true, false, none, some, [], ◌∷◌, ◌++◌, arith,
  leb, ltb, ◌==◌, if◌then◌else◌, length, min, Bytes, length-append, take_all, drop-append_length,
  take-append_length, append-nil,
}
use mangl.Text.{codes, Lacks}
use mangl.Run.{done, strcpy, ◌>>=◌}
use mangl.PageName.{
  ends_with_ignore_case, last_index, base_name, strip_compression, split_name,
  get_page_name_and_section,
}

last_index-cons :
    (c d : ℕ) (s : Bytes) (n : ℕ)
    → last_index c (d ∷ s) (suc n)
      ≡ elim (last_index c s n) [ some i ↦ some (suc i) | none ↦ if d == c then some 0 else none ]
unfolding last_index
last_index-cons c d s zero = refl
last_index-cons c d s (suc n) = ground (arith, last_index-cons c d s n)

last_index-Lacks : (c : ℕ) (s : Bytes) → Lacks c s → last_index c s (length s) ≡ none
unfolding last_index
last_index-Lacks c [] l = refl
last_index-Lacks c (d ∷ s) l =
    last_index-cons c d s (length s) ∙ ground (arith, last_index-Lacks c s l.1)

-- The last place of a byte is in front of a rest that lacks it.
last_index-append :
    (c : ℕ) (s rest : Bytes)
    → Lacks c rest
    → last_index c (s ++ c ∷ rest) (length (s ++ c ∷ rest)) ≡ some (length s)
last_index-append c [] rest l =
    last_index-cons c c rest (length rest) ∙ ground (arith, last_index-Lacks c rest l)
last_index-append c (d ∷ s) rest l =
    last_index-cons c d (s ++ c ∷ rest) (length (s ++ c ∷ rest))
    ∙ ground (arith, last_index-append c s rest l)

pub data Compression : Type 0 where
  plain gz bz2 : Compression

abbrev pub ending : Compression → Bytes
ending plain = []
ending gz = codes ".gz"
ending bz2 = codes ".bz2"

-- What is not compressed does not look as if it were.
abbrev pub Fits : Compression → Bytes → Type 0
Fits plain x =
    (ends_with_ignore_case x (codes ".gz") ≡ false)
    × (ends_with_ignore_case x (codes ".bz2") ≡ false)
Fits gz x = Unit {0}
Fits bz2 x = Unit {0}

-- The test looks at the end of the text alone.
ends_with-append :
    (x y ending : Bytes) (k : ℕ)
    → length y ≡ length ending + k
    → ends_with_ignore_case (x ++ y) ending ≡ ends_with_ignore_case y ending
unfolding ends_with_ignore_case
ends_with-append x y ending k e =
    let long : leb (length ending) (length (x ++ y)) ≡ true = ground (arith, length-append x y) in
    let long' : leb (length ending) (length y) ≡ true = ground arith in
    let at : length (x ++ y) - length ending ≡ length x + k = omega (arith, length-append x y) in
    let at' : length y - length ending ≡ k = omega arith in
    rw (long, long', at, at', drop-append_length x y k)

strip_compression-ending :
    (x : Bytes) (k : Compression) → Fits k x → strip_compression (x ++ ending k) ≡ x
unfolding strip_compression
strip_compression-ending x plain fits = rw (append-nil x, fits.0, fits.1)
strip_compression-ending x gz fits =
    let e : length (x ++ codes ".gz") - 3 ≡ length x =
      omega (arith, length-append x (codes ".gz")) in
    rw (ends_with-append x (codes ".gz") (codes ".gz") 0 refl)
      (unfold ends_with_ignore_case in rw (e, take-append_length x (codes ".gz")))
strip_compression-ending x bz2 fits =
    let e : length (x ++ codes ".bz2") - 4 ≡ length x =
      omega (arith, length-append x (codes ".bz2")) in
    rw
      (
        ends_with-append x (codes ".bz2") (codes ".gz") 1 refl,
        ends_with-append x (codes ".bz2") (codes ".bz2") 0 refl,
      )
      (unfold ends_with_ignore_case in rw (e, take-append_length x (codes ".bz2")))

Lacks-append : (c : ℕ) (s t : Bytes) → Lacks c s → Lacks c t → Lacks c (s ++ t)
Lacks-append c [] t l h = h
Lacks-append c (d ∷ s) t l h = (l.0, Lacks-append c s t l.1 h)

Lacks-ending : (k : Compression) → Lacks b'/' (ending k)
Lacks-ending plain = tt
Lacks-ending gz = omega arith
Lacks-ending bz2 = omega arith

base_name-append : (dir file : Bytes) → Lacks b'/' file → base_name (dir ++ b'/' ∷ file) ≡ file
unfolding base_name
base_name-append dir file l =
    rw (last_index-append b'/' dir file l, base_name) (drop-append_length dir (b'/' ∷ file) 1)

split_name-append :
    (name section : Bytes) (name_len section_len : ℕ)
    → Lacks b'.' section
    → length name < name_len
    → length section < section_len
    → split_name (name ++ b'.' ∷ section) name_len section_len ≡ some (name, section)
unfolding split_name
split_name-append name section name_len section_len l room room' =
    let e : min (length name) (name_len - 1) ≡ length name = omega arith in
    rw (
      last_index-append b'.' name section l,
      split_name,
      e,
      take-append_length name (b'.' ∷ section),
      drop-append_length name (b'.' ∷ section) 1,
      take_all (section_len - 1) section (omega arith),
    )

nonempty :
    (dir file : Bytes) (name_len section_len : ℕ)
    → get_page_name_and_section (dir ++ b'/' ∷ file) name_len section_len ≡ (
        strcpy 256 (base_name (dir ++ b'/' ∷ file)) >>= λ f.
        done (split_name (strip_compression f) name_len section_len))
unfolding get_page_name_and_section
nonempty [] file name_len section_len = refl
nonempty (c ∷ dir) file name_len section_len = refl

length-ending : (k : Compression) → length (ending k) ≤ 4
length-ending plain = omega arith
length-ending gz = omega arith
length-ending bz2 = omega arith

-- The name of a file under any directory, made of a page's name, a dot, its section and an optional
-- .gz or .bz2, is taken apart again: if the section has no dot, neither part has a slash, the
-- file's name is below 252 bytes without its ending, both parts fit their buffers, and what is not
-- compressed does not end in .gz or .bz2.
pub get_page_name_and_section_lem :
    (dir name section : Bytes) (k : Compression) (name_len section_len : ℕ)
    → Lacks b'.' section
    → Lacks b'/' name
    → Lacks b'/' section
    → Fits k (name ++ b'.' ∷ section)
    → length name + length section < 251
    → length name < name_len
    → length section < section_len
    → get_page_name_and_section
        (dir ++ b'/' ∷ ((name ++ b'.' ∷ section) ++ ending k))
        name_len
        section_len
      ≡ done (some (name, section))
get_page_name_and_section_lem dir name section k name_len section_len dots slashes slashes' fits
      short room room' =
    let page = name ++ b'.' ∷ section in
    let small : ltb (length (page ++ ending k)) 256 ≡ true = ground (
      arith,
      length-append page (ending k),
      length-append name (b'.' ∷ section),
      length-ending k,
    ) in
    nonempty dir (page ++ ending k) name_len section_len
    ∙ rw (
      base_name-append dir (page ++ ending k) (
          Lacks-append b'/' page (ending k)
            (Lacks-append b'/' name (b'.' ∷ section) slashes (omega arith, slashes'))
            (Lacks-ending k)),
      small,
      strip_compression-ending page k fits,
      split_name-append name section name_len section_len dots room room',
    )
