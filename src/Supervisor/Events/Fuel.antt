-- ===== src/Supervisor/Events/Fuel.antt =====
-- The loop's fuel for SIGCHLD is enough where the kernel bounds the number of processes.
use svlopp.Prelude.{ℕ, ◌<◌, ◌≢◌, if_cases, arith}
use svlopp.Os.{Os, SigSet, History}
use svlopp.Registry.Defs.{all_stopped}
use svlopp.Reap.Invariant.{StatusIsExact, IsFinite, handle_sigchld_total}
use svlopp.Supervisor.State.{Supervisor, Flow, continues, exits, out_of_fuel, Ends}
use svlopp.Supervisor.Signals.{on_sigchld, on_shutdown, exit_if_stopped}
use svlopp.Supervisor.Events.{rounds}
use svlopp.Supervisor.Events.Rule.{IsKept, rounds-Ends}

-- A step that was not cut short.
abbrev pub IsWhole : Flow → Type 0
IsWhole flow = flow ≢ out_of_fuel

-- The same, as the rule of the loop states it.
abbrev EndsWhole : Flow → Type 0
EndsWhole = Ends (λ _. Unit) (λ _ _. Unit) ⊥

EndsWhole-IsWhole : (flow : Flow) → EndsWhole flow → IsWhole flow
EndsWhole-IsWhole (continues sv) w = ground arith
EndsWhole-IsWhole (exits r sv) w = ground arith
EndsWhole-IsWhole out_of_fuel w = absurd w

IsWhole-EndsWhole : (flow : Flow) → IsWhole flow → EndsWhole flow
IsWhole-EndsWhole (continues sv) w = tt
IsWhole-EndsWhole (exits r sv) w = tt
IsWhole-EndsWhole out_of_fuel w = w (cc)

exit_if_stopped-IsWhole : (sv : Supervisor) → IsWhole (exit_if_stopped sv)
exit_if_stopped-IsWhole sv =
    if_cases IsWhole (all_stopped sv.registry) _ _ (λ _. ground arith) (λ _. ground arith)

module _ (os : Os) (exact : StatusIsExact os) (processes : History → ℕ)
    (finite : IsFinite os processes) (original_sigset : SigSet) (fuel : ℕ)
    (bound : (h : History) → processes h < fuel) where
  on_sigchld-IsWhole : (sv : Supervisor) → IsWhole (on_sigchld os fuel sv)
  unfolding on_sigchld
  on_sigchld-IsWhole sv =
      let (out, e) =
        handle_sigchld_total os exact processes finite fuel sv.registry sv.history
          (bound sv.history) in
      ground (arith, e)

  on_shutdown-IsWhole : (sv : Supervisor) → IsWhole (on_shutdown os sv)
  unfolding on_shutdown
  on_shutdown-IsWhole sv = exit_if_stopped-IsWhole _

  EndsWhole-kept : IsKept os original_sigset fuel (λ _. Unit) (λ _ _. Unit) ⊥
  EndsWhole-kept = record {
    logged = λ sv h q v. tt;
    failed = λ sv e n v. tt;
    reloaded = λ sv v. tt;
    reaped = λ sv v. IsWhole-EndsWhole _ (on_sigchld-IsWhole sv);
    shut = λ sv v. IsWhole-EndsWhole _ (on_shutdown-IsWhole sv);
    turned = λ sv v. tt;
    requested = λ sv k op v. tt;
  }

  -- Where wait statuses are exact, the kernel has finitely many children to report and the number
  -- of processes left to report is always below the fuel, no round of the loop is cut short: each
  -- goes on or ends run.
  pub rounds-IsWhole : (n : ℕ) (sv : Supervisor) → IsWhole (rounds os original_sigset fuel n sv)
  rounds-IsWhole n sv =
      EndsWhole-IsWhole _
        (rounds-Ends os original_sigset fuel (λ _. Unit) (λ _ _. Unit) ⊥ EndsWhole-kept n sv tt)
