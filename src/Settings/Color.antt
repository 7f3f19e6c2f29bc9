-- ===== src/Settings/Color.antt =====
-- A colour that is written with six hexadecimal digits is read back.
use mangl.Prelude.{
  ℕ, ◌+◌, ◌-◌, ◌*◌, ◌/◌, ◌%◌, ◌^◌, ◌<◌, ◌≡◌, refl, ap, ◌∙◌, Bool, true, false, ◌&&◌, ◌||◌, some, [],
  ◌∷◌, arith, ltb, ◌==◌, if◌then◌else◌, Bytes,
}
use mangl.Settings.Load.{Rgb, is_space, hex_digit, hexadecimal, scan_hex, parse_color}

-- A digit below 16.
abbrev pub hex_char : ℕ → ℕ
hex_char d = if ltb d 10 then b'0' + d else b'a' + (d - 10)

-- Two digits for a byte.
abbrev pub byte_digits : ℕ → Bytes → Bytes
byte_digits n rest = hex_char (n / 16) ∷ hex_char (n % 16) ∷ rest

-- `#rrggbb`
abbrev pub color_text : Rgb → Bytes
color_text c = b'#' ∷ byte_digits c.red (byte_digits c.green (byte_digits c.blue []))

hex_digit-hex_char : (d : ℕ) → d < 16 → hex_digit (hex_char d) ≡ some d
unfolding hex_digit
hex_digit-hex_char d l = ground arith

hexadecimal-byte_digits :
    (n b : ℕ) (rest : Bytes)
    → b < 256
    → hexadecimal n (byte_digits b rest) ≡ hexadecimal (n * 256 + b) rest
unfolding hexadecimal
hexadecimal-byte_digits n b rest l =
    let high = hex_digit-hex_char (b / 16) (omega arith) in
    let low = hex_digit-hex_char (b % 16) (omega arith) in
    rw (hexadecimal, high, low) (ap (λ k. hexadecimal k rest) (omega arith))

-- No byte of the digits is taken for a blank, a sign or the `x` of a prefix.
hex_char-plain :
    (d : ℕ)
    → d < 16
    → (is_space (hex_char d) ≡ false)
      × ((hex_char d == b'-') ≡ false)
      × ((hex_char d == b'+') ≡ false)
      × ((hex_char d == b'x' || hex_char d == b'X') ≡ false)
hex_char-plain d l = (ground arith, ground arith, ground arith, ground arith)

and_false : (t : Bool) → t && false ≡ false
and_false true = refl
and_false false = refl

scan_hex-digits :
    (p q : ℕ) (s : Bytes)
    → p < 16
    → q < 16
    → scan_hex (hex_char p ∷ hex_char q ∷ s)
      ≡ some (hexadecimal 0 (hex_char p ∷ hex_char q ∷ s) % 2 ^ 32)
unfolding scan_hex
scan_hex-digits p q s l l' =
    let (solid, minus, plus, x) = hex_char-plain p l in
    let (solid', minus', plus', no_x) = hex_char-plain q l' in
    rw (scan_hex, solid, minus, plus, hex_digit-hex_char p l, no_x, and_false (hex_char p == b'0'))
      refl

-- A colour with three bytes, written as `#` and two lower-case digits for each, is read as these bytes.
pub parse_color-color_text :
    (c old : Rgb) → c.red < 256 → c.green < 256 → c.blue < 256 → parse_color (color_text c) old ≡ c
unfolding parse_color hexadecimal
parse_color-color_text c old red green blue =
    let digits = byte_digits c.green (byte_digits c.blue []) in
    let scanned = scan_hex-digits (c.red / 16) (c.red % 16) digits (omega arith) (omega arith) in
    let value : hexadecimal 0 (byte_digits c.red digits)
        ≡ ((0 * 256 + c.red) * 256 + c.green) * 256 + c.blue =
      hexadecimal-byte_digits 0 c.red digits red
      ∙ hexadecimal-byte_digits (0 * 256 + c.red) c.green (byte_digits c.blue []) green
      ∙ hexadecimal-byte_digits ((0 * 256 + c.red) * 256 + c.green) c.blue [] blue in
    rw (parse_color, scanned, value) (ap₃ (omega arith) (omega arith) (omega arith))
  where
    ap₃ :
        {r r' g g' b b' : ℕ}
        → r ≡ r'
        → g ≡ g'
        → b ≡ b'
        → Path Rgb
            (record { red = r; green = g; blue = b })
            (record { red = r'; green = g'; blue = b' })
    ap₃ e f g i = record { red = e i; green = f i; blue = g i }
