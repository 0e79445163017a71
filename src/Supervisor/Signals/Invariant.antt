-- ===== src/Supervisor/Signals/Invariant.antt =====
-- Signals keep the supervisor valid.
use svlopp.Prelude.{ℕ, nat_eq, ◌≡◌, ◌≢◌, refl, Option, none, some, if_cases, ok, err, panic, arith}
use svlopp.Os.{Os, SigSet}
use svlopp.Registry.Defs.{Handled, all_stopped}
use svlopp.Registry.Invariant.{IsConsistent}
use svlopp.Reload.Additions.{reload_services-IsConsistent}
use svlopp.Reap.{handle_sigchld}
use svlopp.Reap.Invariant.{handle_sigchld-IsConsistent}
use svlopp.Supervisor.State.{Supervisor, shutdown_requested, state_is_running}
use svlopp.Supervisor.Signals.{on_sighup, after_reaping, on_sigchld, exit_if_stopped, on_shutdown}
use svlopp.Supervisor.Invariant.{IsLawful, IsValid, EndsValid, stop_all-IsValid}

exit_if_stopped-EndsValid : (sv : Supervisor) → IsValid sv → EndsValid (exit_if_stopped sv)
exit_if_stopped-EndsValid sv v =
    if_cases EndsValid (all_stopped sv.registry) _ _ (λ _. (v, λ e. ground arith)) (λ _. v)

module _ (os : Os) (laws : IsLawful os) (original_sigset : SigSet) (fuel : ℕ) where
  pub on_sighup-IsValid : (sv : Supervisor) → IsValid sv → IsValid (on_sighup os original_sigset sv)
  unfolding on_sighup
  on_sighup-IsValid sv v =
      reload_services-IsConsistent os laws.fresh laws.is_map sv.registry sv.id_gen original_sigset
        sv.history v

  after_reaping-EndsValid :
      (sv : Supervisor) (o : Option Handled)
      → ((out : Handled) → o ≡ some out → IsConsistent out.1 sv.id_gen out.2 × (out.0 ≢ err panic))
      → EndsValid (after_reaping sv o)
  unfolding after_reaping
  after_reaping-EndsValid sv none f = tt
  after_reaping-EndsValid sv (some (err e, registry, h)) f = f _ refl
  after_reaping-EndsValid sv (some (ok _, registry, h)) f =
      let sv' : Supervisor = record sv { registry = registry; history = h } in
      if_cases EndsValid (state_is_running sv.sv_state) _ _ (λ _. (f _ refl).0)
        (λ _. exit_if_stopped-EndsValid sv' (f _ refl).0)

  pub on_sigchld-EndsValid : (sv : Supervisor) → IsValid sv → EndsValid (on_sigchld os fuel sv)
  unfolding on_sigchld
  on_sigchld-EndsValid sv v =
      after_reaping-EndsValid sv (handle_sigchld os fuel sv.registry sv.history) (λ out e.
        handle_sigchld-IsConsistent os laws.exact sv.id_gen fuel sv.registry sv.history out v e)

  pub on_shutdown-EndsValid : (sv : Supervisor) → IsValid sv → EndsValid (on_shutdown os sv)
  unfolding on_shutdown
  on_shutdown-EndsValid sv v = exit_if_stopped-EndsValid _ (
      if_cases IsValid (state_is_running sv.sv_state) _ _
        (λ _. stop_all-IsValid os (record sv { sv_state = shutdown_requested }) v) (λ _. v))
