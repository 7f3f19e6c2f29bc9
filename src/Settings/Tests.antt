-- ===== src/Settings/Tests.antt =====
-- Lines of a settings file.
use mangl.Prelude.{ℕ, Option, none, some, pos, Bytes, ◌≡◌, ◌++◌, ◌∷◌, [], refl, arith}
use mangl.Text.{codes}
use mangl.Run.{done}
use mangl.Settings.{setting, comment, skip_blanks, split_at, trim_end, parse_line}
use mangl.Settings.Line.{parse_line_lem}
use mangl.Settings.Load.{
  Rgb, Settings, settings_file, default_colors, load_settings, parse_color, scan_hex, hexadecimal,
  hex_digit,
}
use mangl.Settings.File.{Entry, IsEntry, print, set_all, load_settings-print}
use mangl.Settings.Color.{color_text, parse_color-color_text}

comment_line : parse_line 256 512 (codes "  # font: x") ≡ done comment
unfolding parse_line skip_blanks split_at trim_end
comment_line = refl

parse_line_lem_example :
    parse_line 256 512 (codes " font:  a b" ++ b'\n' ∷ [])
    ≡ done (setting (codes "font") (codes "a b"))
parse_line_lem_example =
    parse_line_lem 256 512 (codes " ") b'f' (codes "ont") (codes "  ") (codes "a ") b'b'
      (b'\n' ∷ []) (refl, tt) (refl, λ e. omega arith) (λ e. omega arith)
      (λ e. omega arith, (λ e. omega arith, (λ e. omega arith, (λ e. omega arith, tt))))
      (λ e. omega arith, (λ e. omega arith, (λ e. omega arith, (λ e. omega arith, tt))))
      (omega arith) (refl, (refl, tt)) (refl, λ e. omega arith) refl (refl, tt) (omega arith)

abbrev font : Entry
font = record { initial = b'f'; name = codes "ont"; body = []; last = b'x' }

abbrev font_size : Entry
font_size = record { initial = b'f'; name = codes "ont_size"; body = codes "1"; last = b'2' }

font-IsEntry : IsEntry font
font-IsEntry = record {
  starts = (refl, λ x. omega arith);
  no_comment = λ x. omega arith;
  no_colon = (λ x. omega arith, (λ x. omega arith, (λ x. omega arith, (λ x. omega arith, tt))));
  no_blank = (λ x. omega arith, (λ x. omega arith, (λ x. omega arith, (λ x. omega arith, tt))));
  name_line = (λ x. omega arith, (λ x. omega arith, (λ x. omega arith, (λ x. omega arith, tt))));
  name_fits = omega arith;
  value_starts = (refl, λ x. omega arith);
  value_ends = refl;
  value_line = (λ x. omega arith, tt);
  value_fits = omega arith;
}

font_size-IsEntry : IsEntry font_size
font_size-IsEntry = record {
  starts = (refl, λ x. omega arith);
  no_comment = λ x. omega arith;
  no_colon = (
    λ x. omega arith,
    (
      λ x. omega arith,
      (
        λ x. omega arith,
        (
          λ x. omega arith,
          (
            λ x. omega arith,
            (λ x. omega arith, (λ x. omega arith, (λ x. omega arith, (λ x. omega arith, tt)))),
          ),
        ),
      ),
    ),
  );
  no_blank = (
    λ x. omega arith,
    (
      λ x. omega arith,
      (
        λ x. omega arith,
        (
          λ x. omega arith,
          (
            λ x. omega arith,
            (λ x. omega arith, (λ x. omega arith, (λ x. omega arith, (λ x. omega arith, tt)))),
          ),
        ),
      ),
    ),
  );
  name_line = (
    λ x. omega arith,
    (
      λ x. omega arith,
      (
        λ x. omega arith,
        (
          λ x. omega arith,
          (
            λ x. omega arith,
            (λ x. omega arith, (λ x. omega arith, (λ x. omega arith, (λ x. omega arith, tt)))),
          ),
        ),
      ),
    ),
  );
  name_fits = omega arith;
  value_starts = (refl, λ x. omega arith);
  value_ends = refl;
  value_line = (λ x. omega arith, (λ x. omega arith, tt));
  value_fits = omega arith;
}

abbrev black : Rgb
black = record { red = 0; green = 0; blue = 0 }

abbrev unset : Settings ℕ
unset = record {
  font_file = [];
  font_size = pos 10;
  gui_scale = 1;
  line_spacing = 1;
  line_length = pos 78;
  current_line_length = pos 78;
  initial_window_rows = pos 40;
  color_table = default_colors;
}

-- No number is read.
abbrev strtod : Bytes → Option ℕ
strtod s = none

abbrev fopen : Bytes → Option Bytes
fopen file = some (print (font ∷ font_size ∷ []))

fopen-print : settings_file fopen none (some (codes "/root")) ≡ some (print (font ∷ font_size ∷ []))
unfolding settings_file
fopen-print = refl

load_settings-print_example :
    load_settings strtod fopen none (some (codes "/root")) unset
    ≡ done (record unset { font_file = codes "x"; font_size = pos 12 })
unfolding set_all mangl.Text.same_text mangl.Settings.Load.atoi
load_settings-print_example =
    load_settings-print strtod fopen none (some (codes "/root")) (font ∷ font_size ∷ []) unset
      (font-IsEntry, (font_size-IsEntry, tt)) fopen-print

both_set :
    load_settings strtod fopen none (some (codes "/root")) unset
    ≡ done (record unset { font_file = codes "x"; font_size = pos 12 })
unfolding load_settings settings_file parse_line skip_blanks split_at trim_end
    mangl.Settings.Load.set_setting mangl.Text.same_text
both_set = refl

-- The red part of a longer number is not cut off.
long_color : parse_color (codes "#1ff0000") black ≡ record { red = 511; green = 0; blue = 0 }
unfolding parse_color scan_hex hexadecimal hex_digit
long_color = refl

parse_color-color_text_example :
    parse_color (color_text (record { red = 16; green = 171; blue = 255 })) black
    ≡ record { red = 16; green = 171; blue = 255 }
parse_color-color_text_example =
    parse_color-color_text (record { red = 16; green = 171; blue = 255 }) black (omega arith)
      (omega arith) (omega arith)
