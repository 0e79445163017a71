-- ===== src/Supervisor/Events/Ending.antt =====
-- How `run` ends, and what a request to shut down does.
use svlopp.Prelude.{
  ℕ, ◌≡◌, refl, true, none, arith, nat_eq, if_cases, subst, ok, err, Result, Option-cases, inl, inr,
}
use svlopp.Prelude.Maps.{get}
use svlopp.Os.{Os, SigSet}
use svlopp.Registry.Defs.{all_stopped, service, all_stopped-get}
use svlopp.Supervisor.State.{
  Supervisor, shutdown_requested, Flow, exits, Ends, state_is_running, stop_all,
}
use svlopp.Supervisor.Signals.{on_sigchld, on_shutdown, exit_if_stopped}
use svlopp.Supervisor.Invariant.{IsLawful, IsValid, EndsValid}
use svlopp.Supervisor.Events.Invariant.{rounds-EndsValid}
use svlopp.Supervisor.Events.Rule.{IsKept, rounds-Ends}
use svlopp.Supervisor.Events.{rounds}

abbrev WasStopped : Result (Unit {0}) → Supervisor → Type 0
WasStopped (ok _) sv = (all_stopped sv.registry ≡ true) × (sv.sv_state ≡ shutdown_requested)
WasStopped (err e) sv = Unit

-- Where a step ends `run` with success, a shutdown was requested and every service is stopped.
abbrev EndsStopped : Flow → Type 0
EndsStopped = Ends (λ _. Unit) WasStopped Unit

exit_if_stopped-EndsStopped :
    (sv : Supervisor) → sv.sv_state ≡ shutdown_requested → EndsStopped (exit_if_stopped sv)
exit_if_stopped-EndsStopped sv e =
    if_cases EndsStopped (all_stopped sv.registry) _ _ (λ a. (a, e)) (λ _. tt)

module _ (os : Os) (original_sigset : SigSet) (fuel : ℕ) where
  on_sigchld-EndsStopped : (sv : Supervisor) → EndsStopped (on_sigchld os fuel sv)
  unfolding on_sigchld
  on_sigchld-EndsStopped sv = ground arith

  on_shutdown-EndsStopped : (sv : Supervisor) → EndsStopped (on_shutdown os sv)
  unfolding on_shutdown stop_all
  on_shutdown-EndsStopped sv = exit_if_stopped-EndsStopped _ (
      if_cases (λ (s : Supervisor). s.sv_state ≡ shutdown_requested) (state_is_running sv.sv_state)
        _ _ (λ _. refl) (λ e. ground arith))

  EndsStopped-kept : IsKept os original_sigset fuel (λ _. Unit) WasStopped Unit
  EndsStopped-kept = record {
    logged = λ sv h q v. tt;
    failed = λ sv e n v. tt;
    reloaded = λ sv v. tt;
    reaped = λ sv v. on_sigchld-EndsStopped sv;
    shut = λ sv v. on_shutdown-EndsStopped sv;
    turned = λ sv v. tt;
    requested = λ sv k op v. tt;
  }

  rounds-EndsStopped : (n : ℕ) (sv : Supervisor) → EndsStopped (rounds os original_sigset fuel n sv)
  rounds-EndsStopped n sv =
      rounds-Ends os original_sigset fuel (λ _. Unit) WasStopped Unit EndsStopped-kept n sv tt

no_pid :
    (sv : Supervisor)
    → IsValid sv
    → all_stopped sv.registry ≡ true
    → (p : ℕ) → get p sv.registry.pids_map ≡ none
no_pid sv v e p = elim (Option-cases (get p sv.registry.pids_map)) [
  | inl q ↦ q
  | inr (k, q) ↦ elim (Option-cases (service k sv.registry)) [
    | inl f ↦ ground (arith, f, v.inv.owned k p q)
    | inr (s, f) ↦ ground (arith, f, v.inv.owned k p q, all_stopped-get sv.registry k s)
  ]
]

-- On a lawful operating system, if the loop ends run with success, from a valid supervisor, then a
-- shutdown was requested, every service is stopped and no pid is registered any more.
pub rounds-exit :
    (os : Os)
    → IsLawful os
    → (original_sigset : SigSet) (fuel n : ℕ) (sv end : Supervisor) → IsValid sv
    → rounds os original_sigset fuel n sv ≡ exits (ok tt) end
    → (end.sv_state ≡ shutdown_requested)
      × (all_stopped end.registry ≡ true)
      × ((p : ℕ) → get p end.registry.pids_map ≡ none)
rounds-exit os laws sigset fuel n sv end v e =
    let (stopped, requested) = subst EndsStopped e (rounds-EndsStopped os sigset fuel n sv) in
    let (c, _) = subst EndsValid e (rounds-EndsValid os laws sigset fuel n sv v) in
    (requested, stopped, no_pid end c stopped)
