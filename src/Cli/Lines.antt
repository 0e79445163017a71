-- ===== src/Cli/Lines.antt =====
-- Command lines as lists of what they give, and what the parser makes of them.
use svlopp.Prelude.{
  ◌≡◌, ◌↔◌, Option-cases, inl, inr, refl, eq_iff, false, none, some, Option, List, [], ◌∷◌, Text,
  codes, arith, All, ◌∙◌, ap, list_eq, nat_eq, list_beq,
}
use svlopp.Cli.{
  LogLevel, error, warn, info, debug, CliArgs, Parsing, run_dir_option, log_level_option, path,
  arm_of, with_path, last_arm, arm, finish, or_default, default_run_dir, starts_with_dash, level_of,
  parse_from, parse,
}

abbrev pub level_text : LogLevel → Text
level_text error = codes "error"
level_text warn = codes "warn"
level_text info = codes "info"
level_text debug = codes "debug"

-- What a command line gives: an option with its value, or a path.
pub data Given : Type 0 where
  dir_given : Text → Given
  level_given : LogLevel → Given
  path_given : Text → Given

-- The command line that gives these, in this order.
abbrev pub arguments : List Given → List Text
arguments [] = []
arguments (dir_given dir ∷ given) = codes "--run-dir" ∷ dir ∷ arguments given
arguments (level_given level ∷ given) = codes "--log-level" ∷ level_text level ∷ arguments given
arguments (path_given x ∷ given) = x ∷ arguments given

abbrev pub paths : List Given → List Text
paths [] = []
paths (path_given x ∷ given) = x ∷ paths given
paths (_ ∷ given) = paths given

-- The last one counts; the default is for none.
abbrev pub last_dir : List Given → Text → Text
last_dir [] default = default
last_dir (dir_given dir ∷ given) default = last_dir given dir
last_dir (_ ∷ given) default = last_dir given default

abbrev pub last_level : List Given → LogLevel → LogLevel
last_level [] default = default
last_level (level_given level ∷ given) default = last_level given level
last_level (_ ∷ given) default = last_level given default

-- Exactly one path is accepted.
abbrev pub with_one_path : List Text → Text → LogLevel → Option CliArgs
with_one_path (x ∷ []) dir level =
    some (record { config_path = x; run_dir = dir; log_level = level })
with_one_path _ dir level = none

-- Only an argument without a dash is a path, and every such is.
pub arm_of-path : (arg : Text) → (starts_with_dash arg ≡ false) ↔ (arm_of arg ≡ path)
unfolding arm_of
arm_of-path arg = (
  λ e. ground (
    arith,
    eq_iff arg (codes "--run-dir"),
    eq_iff arg (codes "--help"),
    eq_iff arg (codes "--log-level"),
  ),
  λ e. ground arith,
)

level_of-level_text : (level : LogLevel) → level_of (level_text level) ≡ some level
unfolding level_of list_beq
level_of-level_text error = refl
level_of-level_text warn = refl
level_of-level_text info = refl
level_of-level_text debug = refl

arm_of-options :
    (arm_of (codes "--run-dir") ≡ run_dir_option)
    × (arm_of (codes "--log-level") ≡ log_level_option)
unfolding arm_of list_beq
arm_of-options = (refl, refl)

-- The paths with the one that is known already.
abbrev known : Option Text → List Text → List Text
known none xs = xs
known (some x) xs = x ∷ xs

-- A path, last or not.
parse_from-path :
    (x : Text) (args : List Text) (p : Parsing)
    → starts_with_dash x ≡ false
    → parse_from (x ∷ args) p ≡ with_path x p (parse_from args)
unfolding parse_from last_arm arm
parse_from-path x [] p e = rw ((arm_of-path x).0 e) refl
parse_from-path x (value ∷ args) p e = rw ((arm_of-path x).0 e) refl

-- What the parser makes of the rest of a command line, from what it knows.
abbrev IsRead : List Given → Parsing → Type 0
IsRead given p =
    parse_from (arguments given) p
    ≡ with_one_path (known p.config_path (paths given))
        (last_dir given (or_default p.run_dir default_run_dir))
        (last_level given (or_default p.log_level info))

parse_from-IsRead :
    (given : List Given)
    → All (λ x. starts_with_dash x ≡ false) (paths given)
    → (p : Parsing) → IsRead given p
unfolding parse_from finish with_path or_default
parse_from-IsRead [] a p = elim (Option-cases p.config_path) [
  | inl q ↦ rw q refl
  | inr (x, q) ↦ rw q refl
]
parse_from-IsRead (dir_given dir ∷ given) a p =
    rw arm_of-options.0 (parse_from-IsRead given a (record p { run_dir = some dir }))
parse_from-IsRead (level_given level ∷ given) a p =
    rw (arm_of-options.1, level_of-level_text level)
      (parse_from-IsRead given a (record p { log_level = some level }))
parse_from-IsRead (path_given x ∷ given) a p =
    parse_from-path x (arguments given) p a.0 ∙ elim (Option-cases p.config_path) [
      | inl q ↦ rw q (parse_from-IsRead given a.1 (record p { config_path = some x }))
      | inr (y, q) ↦ rw q refl
    ]

-- The command line is that of a list whose paths do not begin with a dash.
abbrev pub IsLine : List Text → List Given → Type 0
IsLine args given = (args ≡ arguments given) × All (λ x. starts_with_dash x ≡ false) (paths given)

pub parse-line :
    (args : List Text) (given : List Given)
    → IsLine args given
    → parse args
      ≡ with_one_path (paths given) (last_dir given default_run_dir) (last_level given info)
unfolding parse or_default
parse-line args given (is, fine) =
    ap parse is
    ∙ parse_from-IsRead given fine (record { config_path = none; run_dir = none; log_level = none })
