-- ===== src/Examples/CommandLine.antt =====
-- A command line with its options around the path, and paths that are equal as such.
use svlopp.Prelude.{
  ◌≡◌, ◌↔◌, refl, some, true, false, [], ◌∷◌, nat_eq, list_eq, list_beq, List, codes,
}
use svlopp.Cli.{CliArgs, debug, info, default_run_dir, parse}
use svlopp.Cli.Lines.{
  Given, dir_given, level_given, path_given, arguments, paths, last_dir, last_level, with_one_path,
  IsLine,
}
use svlopp.Cli.CommandLines.{parse-arguments}
use svlopp.Service.Paths.{path_beq}

-- The level is given twice, the second time after the path.
abbrev given : List Given
given =
    level_given info
    ∷ path_given (codes "svlopp.toml")
    ∷ dir_given (codes "/tmp/run")
    ∷ level_given debug
    ∷ []

abbrev meant : CliArgs
meant = record { config_path = codes "svlopp.toml"; run_dir = codes "/tmp/run"; log_level = debug }

parse-arguments_example : (parse (arguments given) ≡ some meant) ↔ (
    (given' : List Given) × IsLine (arguments given) given'
    × (with_one_path (paths given') (last_dir given' default_run_dir) (last_level given' info)
        ≡ some meant))
parse-arguments_example = parse-arguments (arguments given) meant

given-accepted : parse (arguments given) ≡ some meant
given-accepted = (parse-arguments (arguments given) meant).1 (given, (refl, (refl, tt)), refl)

-- A trailing separator, a repeated one and a `.` inside make no difference; the root does.
path_beq_tests :
    (path_beq (codes "/tmp") (codes "/tmp/") ≡ true)
    × (path_beq (codes "/var//log/./a") (codes "/var/log/a") ≡ true)
    × (path_beq (codes "/tmp") (codes "tmp") ≡ false)
    × (path_beq (codes "./tmp") (codes "tmp") ≡ false)
    × (path_beq (codes "/a/../b") (codes "/b") ≡ false)
unfolding path_beq list_beq
path_beq_tests = (refl, refl, refl, refl, refl)
