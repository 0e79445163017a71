-- ===== src/Main/Exit.antt =====
-- What the exit code 0 says.
use svlopp.Prelude.{
  ℕ, ◌≡◌, refl, sym, ap, Option, none, some, [], ◌∷◌, Text, Result, ok, err, true, arith, nat_eq,
}
use svlopp.Prelude.Maps.{get}
use svlopp.Cli.{CliArgs}
use svlopp.Os.{Os, SigSet}
use svlopp.Sys.{Kernel, Trace, ℤ, rustix_call, remove_dir_all}
use svlopp.Registry.Defs.{all_stopped}
use svlopp.Supervisor.State.{Supervisor, Flow, continues, exits, out_of_fuel, shutdown_requested}
use svlopp.Supervisor.SetUp.{Descriptors}
use svlopp.Supervisor.Startup.{startup}
use svlopp.Supervisor.Startup.Invariant.{startup-IsValid}
use svlopp.Supervisor.Invariant.{IsLawful}
use svlopp.Supervisor.Events.{rounds}
use svlopp.Supervisor.Events.Ending.{rounds-exit}
use svlopp.Main.{result_of, after_startup, after_set_up, run, after_run, after_mkdir, main}

-- A run that came to its end: a shutdown was requested, every service has stopped, and no pid is
-- registered.
abbrev pub HasShutDown : Supervisor → Type 0
HasShutDown end =
    (end.sv_state ≡ shutdown_requested)
    × (all_stopped end.registry ≡ true)
    × ((p : ℕ) → get p end.registry.pids_map ≡ none)

-- The supervisor started, and its loop came to such an end.
abbrev pub RanWell : Os → ℕ → ℕ → SigSet → Type 0
RanWell os fuel rounds_left sigset =
    (sv : Supervisor) × (end : Supervisor) × (startup os sigset [] ≡ ok sv)
    × (rounds os sigset fuel rounds_left sv ≡ exits (ok tt) end)
    × HasShutDown end

-- The last call was the one to remove the run directory, whatever came of it.
abbrev pub LastRemoved : CliArgs → Trace → Type 0
LastRemoved args h =
    (r : Result ℤ) × (before : Trace) × (h ≡ (remove_dir_all args.run_dir, r) ∷ before)

module _ (os : Os) (laws : IsLawful os) (kernel : Kernel) (join : Text → Text → Text)
    (fuel rounds_left : ℕ) where
  result_of-exits :
      (flow : Flow)
      → result_of flow ≡ some (ok tt)
      → (end : Supervisor) × (flow ≡ exits (ok tt) end)
  result_of-exits (continues sv) e = ground arith
  result_of-exits (exits (ok _) sv) e = (sv, refl)
  result_of-exits (exits (err x) sv) e = ground arith
  result_of-exits out_of_fuel e = ground arith

  after_startup-RanWell :
      (sigset : SigSet) (r : Result Supervisor)
      → startup os sigset [] ≡ r
      → after_startup os kernel join fuel rounds_left sigset r ≡ some (ok tt)
      → RanWell os fuel rounds_left sigset
  unfolding after_startup
  after_startup-RanWell sigset (err x) s e = ground arith
  after_startup-RanWell sigset (ok sv) s e =
      let (end, f) = result_of-exits _ e in
      (
        sv,
        end,
        s,
        f,
        rounds-exit os laws sigset fuel rounds_left sv end (startup-IsValid os laws sigset [] sv s)
            f,
      )

  after_set_up-RanWell :
      (out : Result Descriptors × Trace)
      → (after_set_up os kernel join fuel rounds_left out).0 ≡ some (ok tt)
      → (sigset : SigSet) × RanWell os fuel rounds_left sigset
  unfolding after_set_up
  after_set_up-RanWell (err x, h) e = ground arith
  after_set_up-RanWell (ok d, h) e =
      (d.original_sigset, after_startup-RanWell d.original_sigset _ refl e)

  after_run-zero :
      (args : CliArgs) (out : Option (Result (Unit {0})) × Trace) (h' : Trace)
      → after_run os kernel join fuel rounds_left args out ≡ (some 0, h')
      → (out.0 ≡ some (ok tt)) × LastRemoved args h'
  unfolding after_run rustix_call
  after_run-zero args (none, h) h' e = ground arith
  after_run-zero args (some (ok _), h) h' e =
      (refl, (kernel.rustix h (remove_dir_all args.run_dir), h, sym (ap (λ o. o.1) e)))
  after_run-zero args (some (err x), h) h' e = ground arith

  after_mkdir-zero :
      (args : CliArgs) (out : Result ℤ × Trace) (h' : Trace)
      → after_mkdir os kernel join fuel rounds_left args out ≡ (some 0, h')
      → ((sigset : SigSet) × RanWell os fuel rounds_left sigset) × LastRemoved args h'
  unfolding after_mkdir run
  after_mkdir-zero args (ok _, h) h' e =
      let (good, last) = after_run-zero args _ h' e in (after_set_up-RanWell _ good, last)
  after_mkdir-zero args (err x, h) h' e = ground arith

  -- On a lawful operating system, if main ends with code 0, the startup succeeded, the loop ended
  -- with a shutdown requested, every service stopped and no pid registered, and the last call of
  -- all was the one to remove the run directory, whatever came of it.
  pub main-zero :
      (args : CliArgs) (h h' : Trace)
      → main os kernel join fuel rounds_left args h ≡ (some 0, h')
      → ((sigset : SigSet) × RanWell os fuel rounds_left sigset) × LastRemoved args h'
  unfolding main
  main-zero args h h' e = after_mkdir-zero args _ h' e
