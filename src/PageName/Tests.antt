-- ===== src/PageName/Tests.antt =====
-- Runs of `get_page_name_and_section`, and its theorem at concrete inputs.
use mangl.Prelude.{◌≡◌, refl, none, some, arith}
use mangl.Text.{codes}
use mangl.Run.{done}
use mangl.PageName.{base_name, strip_compression, split_name, get_page_name_and_section}
use mangl.PageName.Split.{gz, get_page_name_and_section_lem}

program : Unit {0}
unfolding get_page_name_and_section base_name strip_compression split_name
program = tt

no_section : get_page_name_and_section (codes "man1/README") 128 64 ≡ done none
unfolding program
no_section = refl

upper_case :
    get_page_name_and_section (codes "/usr/man/man3/X.h.3X.BZ2") 128 64
    ≡ done (some (codes "X.h", codes "3X"))
unfolding program
upper_case = refl

get_page_name_and_section_example :
    get_page_name_and_section (codes "/usr/share/man/man1/git.add.1.gz") 512 64
    ≡ done (some (codes "git.add", codes "1"))
get_page_name_and_section_example =
    get_page_name_and_section_lem (codes "/usr/share/man/man1") (codes "git.add") (codes "1") gz 512
      64 (omega arith) (omega arith) (omega arith) tt (omega arith) (omega arith) (omega arith)
