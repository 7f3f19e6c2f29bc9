-- ===== src/CommandLine.antt =====
-- The command line, as `main` of main.c reads it: which page to show.
mod Tests
use mangl.Prelude.{
  ℕ, Bool, true, false, Option, none, some, List, [], ◌∷◌, ◌==◌, if◌then◌else◌, Bytes,
}
use mangl.Run.{Run, done, exited, ◌>>=◌}
use mangl.ManPath.{Paths}
use mangl.FileSearch.{FileSystem, search_filesystem}

pub record Options : Type 0 where
  pub no_fork : Bool
  pub local_file : Bool

abbrev pub no_options : Options
no_options = record { no_fork = false; local_file = false }

-- The loop over what `getopt_long` returns, one option after the other. The help and the version
-- end the program with status 0, an unknown option with status 1.
unfoldable pub read_options : List ℕ → Options → Run Options
read_options [] o = done o
read_options (ch ∷ options) o =
    if ch == b'f'
    then read_options options (record o { no_fork = true })
    else if ch == b'h'
    then exited 0
    else if ch == b'l'
    then read_options options (record o { local_file = true })
    else if ch == b'V'
    then exited 0
    else exited 1

-- The size of `tmp_filename`.
abbrev pub tmp_filename_size : ℕ
tmp_filename_size = 1024

module _ (fs : FileSystem) (cache : Option Paths) (output : Option Bytes) where
  -- A page that is not in the manual ends the program with status 1.
  abbrev pub find_page : Option Bytes → Bytes → Run (Option Bytes)
  find_page section search_term =
      search_filesystem fs tmp_filename_size cache output section search_term >>= λ r. elim r [
        | none ↦ exited 1
        | some file ↦ done (some file)
      ]

  -- With the arguments behind the options. `none` is the search screen.
  unfoldable pub choose_file : Options → List Bytes → Run (Option Bytes)
  choose_file o [] = if o.local_file then exited 1 else done none
  choose_file o (first ∷ []) = if o.local_file then done (some first) else find_page none first
  choose_file o (first ∷ second ∷ []) =
      if o.local_file then done (some second) else find_page (some first) second
  choose_file o (first ∷ second ∷ third ∷ more) = exited 1

  unfoldable pub command_line : List ℕ → List Bytes → Run (Option Bytes)
  unfolding read_options choose_file
  command_line options arguments = read_options options no_options >>= λ o. choose_file o arguments
