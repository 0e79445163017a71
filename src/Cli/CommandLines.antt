-- ===== src/Cli/CommandLines.antt =====
-- Exactly the command lines that are accepted: each is one of Cli.Lines.
use svlopp.Prelude.{
  ◌≡◌, ◌↔◌, Option-cases, inl, inr, refl, eq_iff, none, some, Option, List, [], ◌∷◌, Text, codes,
  arith, ◌∙◌, ap, ap₂, subst, sym, list_eq, nat_eq,
}
use svlopp.Cli.{
  LogLevel, info, CliArgs, Parsing, Arm, run_dir_option, help_option, log_level_option,
  unknown_option, path, arm_of, with_path, with_level, last_arm, arm, finish, default_run_dir,
  level_of, parse_from, parse,
}
use svlopp.Cli.Lines.{
  level_text, Given, dir_given, level_given, path_given, paths, last_dir, last_level, with_one_path,
  IsLine, arm_of-path, parse-line,
}

arm_of-run_dir : (arg : Text) → arm_of arg ≡ run_dir_option → arg ≡ codes "--run-dir"
unfolding arm_of
arm_of-run_dir arg e = ground (arith, eq_iff arg (codes "--run-dir"))

arm_of-log_level : (arg : Text) → arm_of arg ≡ log_level_option → arg ≡ codes "--log-level"
unfolding arm_of
arm_of-log_level arg e = ground (arith, eq_iff arg (codes "--log-level"))

level_of-some :
    (value : Text) (level : LogLevel) → level_of value ≡ some level → value ≡ level_text level
unfolding level_of
level_of-some value level e = ground (
  arith,
  eq_iff value (codes "error"),
  eq_iff value (codes "warn"),
  eq_iff value (codes "info"),
  eq_iff value (codes "debug"),
)

-- What the parser of some arguments promises.
abbrev IsExact : List Text → (Parsing → Option CliArgs) → Type 0
IsExact args next =
    (p : Parsing) (a : CliArgs) → next p ≡ some a → (given : List Given) × IsLine args given

with_path-IsExact :
    (arg : Text) (args : List Text) (next : Parsing → Option CliArgs)
    → arm_of arg ≡ path
    → IsExact args next
    → IsExact (arg ∷ args) (λ p. with_path arg p next)
unfolding with_path
with_path-IsExact arg args next q s p a e = elim (Option-cases p.config_path) [
  | inl none_yet ↦
      let (given, (is, fine)) = s (record p { config_path = some arg }) a (rw none_yet at e) in
      (path_given arg ∷ given, (ap (λ (l : List Text). arg ∷ l) is, ((arm_of-path arg).1 q, fine)))
  | inr (x, r) ↦ ground (arith, r)
]

with_level-IsExact :
    (value : Text) (args : List Text) (level : Option LogLevel) (next : Parsing → Option CliArgs)
    → level_of value ≡ level
    → IsExact args next
    → IsExact (codes "--log-level" ∷ value ∷ args) (λ p. with_level level p next)
unfolding with_level
with_level-IsExact value args none next q s p a e = ground arith
with_level-IsExact value args (some level) next q s p a e =
    let (given, (is, fine)) = s (record p { log_level = some level }) a e in
    (
      level_given level ∷ given,
      (
        ap₂ (λ (v : Text) (l : List Text). codes "--log-level" ∷ v ∷ l)
            (level_of-some value level q) is,
        fine,
      ),
    )

last_arm-IsExact : (m : Arm) (arg : Text) → arm_of arg ≡ m → IsExact (arg ∷ []) (last_arm m arg)
unfolding last_arm
last_arm-IsExact path arg q p a e =
    with_path-IsExact arg [] finish q (λ p' a' e'. ([], (refl, tt))) p a e
last_arm-IsExact run_dir_option arg q p a e = ground arith
last_arm-IsExact help_option arg q p a e = ground arith
last_arm-IsExact log_level_option arg q p a e = ground arith
last_arm-IsExact unknown_option arg q p a e = ground arith

arm-IsExact :
    (m : Arm) (arg value : Text) (args : List Text) (after_value next : Parsing → Option CliArgs)
    → arm_of arg ≡ m
    → IsExact args after_value
    → IsExact (value ∷ args) next
    → IsExact (arg ∷ value ∷ args) (λ p. arm m arg value p after_value next)
unfolding arm
arm-IsExact path arg value args after_value next q s t p a e =
    with_path-IsExact arg (value ∷ args) next q t p a e
arm-IsExact run_dir_option arg value args after_value next q s t p a e =
    let (given, (is, fine)) = s (record p { run_dir = some value }) a e in
    (
      dir_given value ∷ given,
      (ap₂ (λ (o : Text) (l : List Text). o ∷ value ∷ l) (arm_of-run_dir arg q) is, fine),
    )
arm-IsExact log_level_option arg value args after_value next q s t p a e =
    subst (λ o. (given : List Given) × IsLine (o ∷ value ∷ args) given)
      (sym (arm_of-log_level arg q))
      (with_level-IsExact value args (level_of value) after_value refl s p a e)
arm-IsExact help_option arg value args after_value next q s t p a e = ground arith
arm-IsExact unknown_option arg value args after_value next q s t p a e = ground arith

parse_from-IsExact : (args : List Text) → IsExact args (parse_from args)
unfolding parse_from
parse_from-IsExact [] p a e = ([], (refl, tt))
parse_from-IsExact (arg ∷ []) p a e = last_arm-IsExact (arm_of arg) arg refl p a e
parse_from-IsExact (arg ∷ value ∷ args) p a e =
    arm-IsExact (arm_of arg) arg value args (parse_from args) (parse_from (value ∷ args)) refl
      (parse_from-IsExact args) (parse_from-IsExact (value ∷ args)) p a e

parse-IsExact :
    (args : List Text) (a : CliArgs)
    → parse args ≡ some a
    → (given : List Given) × IsLine args given
unfolding parse
parse-IsExact args a e = parse_from-IsExact args _ a e

-- Parse accepts exactly the command lines that are written by options with a value, the run
-- directory or a level, and by paths that do not begin with a dash, in any number and order but
-- with one path in all; what it reads is that path, with the last run directory and the last level
-- given, or the defaults.
pub parse-arguments :
    (args : List Text) (a : CliArgs)
    → (parse args ≡ some a) ↔ (
        (given : List Given) × IsLine args given
        × (with_one_path (paths given) (last_dir given default_run_dir) (last_level given info)
            ≡ some a))
parse-arguments args a = (
  λ e.
      let (given, line) = parse-IsExact args a e in
      (given, line, sym (parse-line args given line) ∙ e),
  λ (given, line, meant). parse-line args given line ∙ meant,
)
