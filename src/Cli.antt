-- ===== src/Cli.antt =====
-- src/cli.rs: the parser of the command line, and src/logging.rs: the levels.
pub mod Lines
pub mod CommandLines
use svlopp.Prelude.{
  ℕ, Bool, true, false, Option, none, some, List, [], ◌∷◌, ◌==◌, nat_eq, list_eq, if◌then◌else◌,
  Text, codes,
}

pub data LogLevel : Type 0 where
  error warn info debug : LogLevel

pub record CliArgs : Type 0 where
  pub config_path : Text
  pub run_dir : Text
  pub log_level : LogLevel

abbrev pub default_run_dir : Text
default_run_dir = codes "/run/svlopp"

-- The variables of the loop.
pub record Parsing : Type 0 where
  pub config_path : Option Text
  pub run_dir : Option Text
  pub log_level : Option LogLevel

unfoldable pub level_of : Text → Option LogLevel
level_of value =
    if value == codes "error"
    then some error
    else if value == codes "warn"
    then some warn
    else if value == codes "info"
    then some info
    else if value == codes "debug"
    then some debug
    else none

-- `starts_with("-")`
abbrev pub starts_with_dash : Text → Bool
starts_with_dash [] = false
starts_with_dash (c ∷ s) = c == b'-'

or_default : {A : Type 0} → Option A → A → A
or_default none a = a
or_default (some b) a = b

-- After the loop; `none` is `usage()`, which ends the program.
finish : Parsing → Option CliArgs
unfolding or_default
finish p = elim p.config_path [
  | none ↦ none
  | some path ↦ some (record {
    config_path = path;
    run_dir = or_default p.run_dir default_run_dir;
    log_level = or_default p.log_level info;
  })
]

-- The arms of `match arg.as_str()`.
pub data Arm : Type 0 where
  run_dir_option help_option log_level_option unknown_option path : Arm

unfoldable pub arm_of : Text → Arm
arm_of arg =
    if arg == codes "--run-dir"
    then run_dir_option
    else if arg == codes "--help"
    then help_option
    else if arg == codes "--log-level"
    then log_level_option
    else if starts_with_dash arg
    then unknown_option
    else path

-- A second path is refused.
with_path : Text → Parsing → (Parsing → Option CliArgs) → Option CliArgs
with_path arg p next = elim p.config_path [
  | none ↦ next (record p { config_path = some arg })
  | some _ ↦ none
]

with_level : Option LogLevel → Parsing → (Parsing → Option CliArgs) → Option CliArgs
with_level none p next = none
with_level (some level) p next = next (record p { log_level = some level })

-- The last argument: an option has no value.
last_arm : Arm → Text → Parsing → Option CliArgs
unfolding with_path finish
last_arm path arg p = with_path arg p finish
last_arm _ arg p = none

-- An argument with another after it, which is an option's value; `after_value` goes on behind it,
-- `next` at it.
arm :
    Arm
    → Text
    → Text
    → Parsing
    → (Parsing → Option CliArgs)
    → (Parsing → Option CliArgs)
    → Option CliArgs
unfolding with_path with_level level_of
arm run_dir_option arg value p after_value next = after_value (record p { run_dir = some value })
arm help_option arg value p after_value next = none
arm log_level_option arg value p after_value next = with_level (level_of value) p after_value
arm unknown_option arg value p after_value next = none
arm path arg value p after_value next = with_path arg p next

-- The loop; `none` is `usage()`.
unfoldable pub parse_from : List Text → Parsing → Option CliArgs
unfolding finish last_arm arm
parse_from [] p = finish p
parse_from (arg ∷ []) p = last_arm (arm_of arg) arg p
parse_from (arg ∷ value ∷ args) p =
    arm (arm_of arg) arg value p (parse_from args) (parse_from (value ∷ args))

-- The arguments after the program's name.
unfoldable pub parse : List Text → Option CliArgs
parse args = parse_from args (record { config_path = none; run_dir = none; log_level = none })
