-- ===== src/Main.antt =====
-- src/main.rs: `main`, and `run` as a whole: the set-up, the startup and the rounds of the loop.
pub mod Exit
pub mod Masks
use svlopp.Prelude.{ℕ, Option, none, some, [], Text, Result, ok, err}
use svlopp.Cli.{CliArgs}
use svlopp.Os.{Os, SigSet}
use svlopp.Sys.{Kernel, Trace, ℤ, rustix_call, mkdir, remove_dir_all}
use svlopp.Supervisor.State.{Supervisor, Flow, continues, exits, out_of_fuel}
use svlopp.Supervisor.SetUp.{Descriptors, set_up, control_pipe_name}
use svlopp.Supervisor.Startup.{startup}
use svlopp.Supervisor.Events.{rounds}

-- The result of `run`; `none` if the loop goes on.
abbrev pub result_of : Flow → Option (Result (Unit {0}))
result_of (continues sv) = none
result_of (exits r sv) = some r
result_of out_of_fuel = none

abbrev exit_code : Result (Unit {0}) → ℕ
exit_code (ok _) = 0
exit_code (err _) = 1

-- `join` is `Path::join`. The loop is followed for `rounds_left` rounds.
module _ (os : Os) (kernel : Kernel) (join : Text → Text → Text) (fuel rounds_left : ℕ) where
  after_startup : SigSet → Result Supervisor → Option (Result (Unit {0}))
  after_startup original_sigset (err e) = some (err e)
  after_startup original_sigset (ok sv) = result_of (rounds os original_sigset fuel rounds_left sv)

  after_set_up : Result Descriptors × Trace → Option (Result (Unit {0})) × Trace
  unfolding after_startup
  after_set_up (err e, h) = (some (err e), h)
  after_set_up (ok d, h) = (after_startup d.original_sigset (startup os d.original_sigset []), h)

  run : CliArgs → Trace → Option (Result (Unit {0})) × Trace
  unfolding after_set_up
  run args h = after_set_up (set_up kernel (join args.run_dir control_pipe_name) h)

  -- The run directory is removed whatever the result.
  after_run : CliArgs → Option (Result (Unit {0})) × Trace → Option ℕ × Trace
  after_run args (none, h) = (none, h)
  after_run args (some r, h) =
      let (_, h') = rustix_call kernel (remove_dir_all args.run_dir) h in (some (exit_code r), h')

  -- Mode 0o755 is 493.
  after_mkdir : CliArgs → Result ℤ × Trace → Option ℕ × Trace
  unfolding after_run run
  after_mkdir args (ok _, h) = after_run args (run args h)
  after_mkdir args (err _, h) = (some 1, h)

  -- The exit code.
  unfoldable pub main : CliArgs → Trace → Option ℕ × Trace
  unfolding after_mkdir
  main args h =
      let (_, h') = rustix_call kernel (remove_dir_all args.run_dir) h in
      after_mkdir args (rustix_call kernel (mkdir args.run_dir 493) h')
