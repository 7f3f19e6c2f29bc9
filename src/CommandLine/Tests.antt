-- ===== src/CommandLine/Tests.antt =====
-- Command lines with options and arguments.
use mangl.Prelude.{◌≡◌, refl, false, none, some, [], ◌∷◌}
use mangl.Text.{codes}
use mangl.Run.{done, exited}
use mangl.FileSearch.{FileSystem}
use mangl.CommandLine.{command_line}

abbrev no_files : FileSystem
no_files = record { stat = λ file. false; glob = λ pattern. none }

search_screen : command_line no_files none none (b'f' ∷ []) [] ≡ done none
unfolding command_line
search_screen = refl

last_argument :
    command_line no_files none none (b'l' ∷ []) (codes "3" ∷ codes "./a.1" ∷ [])
    ≡ done (some (codes "./a.1"))
unfolding command_line
last_argument = refl

too_many : command_line no_files none none [] (codes "3" ∷ codes "a" ∷ codes "b" ∷ []) ≡ exited 1
unfolding command_line
too_many = refl
