-- ===== src/Supervisor/Events/Liveness.antt =====
-- While `run` waits for the services to stop, each of its signals ends it as soon as it may end.
use svlopp.Prelude.{
  if_cases, ℕ, ◌<◌, nat_eq, ◌≡◌, ◌⊎◌, inl, inr, refl, true, some, ok, err, arith, Bool-cases,
}
use svlopp.Utils.{sigchld, sigint, sigterm}
use svlopp.Os.{Os, SigSet, History, is_child}
use svlopp.Service.Methods.{Service, pid}
use svlopp.Registry.Defs.{Handled, service, all_stopped}
use svlopp.Registry.Invariant.{IsConsistent}
use svlopp.Registry.Lookup.{all_stopped-awake}
use svlopp.Reap.Invariant.{IsFinite, handle_sigchld_total, handle_sigchld-IsConsistent}
use svlopp.Supervisor.State.{
  Supervisor, Flow, continues, exits, out_of_fuel, and_flow, shutdown_requested, state_is_running,
  stop_all,
}
use svlopp.Supervisor.Signals.{after_reaping, on_sigchld, exit_if_stopped, on_shutdown, on_signal}
use svlopp.Supervisor.Invariant.{IsLawful, IsValid, stop_all-IsValid}

-- `run` has ended, or it waits for a service whose process is a child that is not yet reaped.
abbrev pub EndsOrWaits : Flow → Type 0
EndsOrWaits (exits r end) = Unit
EndsOrWaits (continues sv) =
    (sv.sv_state ≡ shutdown_requested)
    × ((k : ℕ) × (s : Service) × (p : ℕ) × (service k sv.registry ≡ some s)
        × (pid s ≡ some p)
        × (is_child p sv.history ≡ true))
EndsOrWaits out_of_fuel = ⊥

exit_if_stopped-EndsOrWaits :
    (sv : Supervisor)
    → IsValid sv
    → sv.sv_state ≡ shutdown_requested
    → EndsOrWaits (exit_if_stopped sv)
exit_if_stopped-EndsOrWaits sv v e = elim (Bool-cases (all_stopped sv.registry)) [
  | inl stopped ↦ rw stopped tt
  | inr awake ↦ rw awake (e, all_stopped-awake sv.registry sv.id_gen sv.history v awake)
]

and_continues : (flow : Flow) → EndsOrWaits flow → EndsOrWaits (and_flow flow (λ sv. continues sv))
and_continues (continues sv) e = e
and_continues (exits r sv) e = e
and_continues out_of_fuel e = e

after_reaping-EndsOrWaits :
    (sv : Supervisor) (out : Handled)
    → sv.sv_state ≡ shutdown_requested
    → IsConsistent out.1 sv.id_gen out.2
    → EndsOrWaits (after_reaping sv (some out))
unfolding after_reaping
after_reaping-EndsOrWaits sv (err e, registry, h) q c = tt
after_reaping-EndsOrWaits sv (ok _, registry, h) q c =
    let sv' : Supervisor = record sv { registry = registry; history = h } in
    if_cases EndsOrWaits (state_is_running sv.sv_state) _ _ (λ r. absurd (ground arith))
      (λ _. exit_if_stopped-EndsOrWaits sv' c q)

module _ (os : Os) (laws : IsLawful os) (processes : History → ℕ) (finite : IsFinite os processes)
    (original_sigset : SigSet) (fuel : ℕ) (sv : Supervisor) (v : IsValid sv) where
  on_sigchld-EndsOrWaits :
      processes sv.history < fuel
      → sv.sv_state ≡ shutdown_requested
      → EndsOrWaits (on_sigchld os fuel sv)
  unfolding on_sigchld
  on_sigchld-EndsOrWaits bound q =
      let (out, e) =
        handle_sigchld_total os laws.exact processes finite fuel sv.registry sv.history bound in
      rw e (
        after_reaping-EndsOrWaits sv out q
          (handle_sigchld-IsConsistent os laws.exact sv.id_gen fuel sv.registry sv.history out v
            e).0)

  on_shutdown-EndsOrWaits : EndsOrWaits (on_shutdown os sv)
  unfolding on_shutdown stop_all
  on_shutdown-EndsOrWaits = elim (Bool-cases (state_is_running sv.sv_state)) [
    | inl yet ↦ rw yet (
        exit_if_stopped-EndsOrWaits (stop_all os (record sv { sv_state = shutdown_requested }))
          (stop_all-IsValid os (record sv { sv_state = shutdown_requested }) v) refl)
    | inr already ↦ rw already (exit_if_stopped-EndsOrWaits sv v (ground arith))
  ]

  -- On a lawful operating system, from a valid supervisor and with more fuel than there are
  -- processes to report, handling SIGINT or SIGTERM, or SIGCHLD after a shutdown was requested,
  -- either ends run or goes on with the shutdown requested and a service whose process is a child
  -- that is not yet reaped.
  pub on_signal-EndsOrWaits :
      (signo : ℕ)
      → processes sv.history < fuel
      → ((signo ≡ sigchld) × (sv.sv_state ≡ shutdown_requested))
        ⊎ (signo ≡ sigint)
        ⊎ (signo ≡ sigterm)
      → EndsOrWaits (on_signal os original_sigset fuel signo sv)
  unfolding on_signal
  on_signal-EndsOrWaits signo bound (inl (e, q)) =
      rw e (and_continues (on_sigchld os fuel sv) (on_sigchld-EndsOrWaits bound q))
  on_signal-EndsOrWaits signo bound (inr (inl e)) = rw e on_shutdown-EndsOrWaits
  on_signal-EndsOrWaits signo bound (inr (inr e)) = rw e on_shutdown-EndsOrWaits
