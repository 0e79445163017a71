-- ===== src/Supervisor/Masks.antt =====
-- In every run, children are forked with the mask that `run` was given for them.
use svlopp.Prelude.{
  ℕ, ◌≡◌, refl, ◌∷◌, [], arith, nat_eq, Option, none, some, ok, err, if_cases, true,
}
use svlopp.Prelude.Maps.Loop.{retain_with_state}
use svlopp.Os.{Os, SigSet, History, Call, is_plain}
use svlopp.Service.Process.Masks.{AllMasked, stop_service-AllMasked}
use svlopp.Registry.Defs.{Handled, all_stopped}
use svlopp.Reload.Masks.{reload_services-AllMasked}
use svlopp.Reap.{handle_sigchld}
use svlopp.Reap.Masks.{handle_sigchld-AllMasked}
use svlopp.Tick.Masks.{tick-AllMasked}
use svlopp.ControlOps.Masks.{apply_control_op-AllMasked}
use svlopp.Supervisor.State.{
  Supervisor, Flow, shutdown_requested, Ends, stop_each, stop_all, state_is_running,
}
use svlopp.Supervisor.Signals.{on_sighup, after_reaping, on_sigchld, exit_if_stopped, on_shutdown}
use svlopp.Supervisor.Startup.{startup}
use svlopp.Supervisor.Startup.Masks.{startup-AllMasked}
use svlopp.Supervisor.Events.{rounds}
use svlopp.Supervisor.Events.Rule.{IsKept, rounds-Ends}

plain-AllMasked :
    (sigset : SigSet) (c : Call) (h : History)
    → is_plain c ≡ true
    → AllMasked sigset h
    → AllMasked sigset (c ∷ h)
plain-AllMasked sigset c h e a = ground arith

-- The mask of every child that the supervisor forked.
abbrev pub IsMasked : SigSet → Supervisor → Type 0
IsMasked sigset sv = AllMasked sigset sv.history

module _ (os : Os) (sigset : SigSet) (fuel : ℕ) where
  stop_all-IsMasked : (sv : Supervisor) → IsMasked sigset sv → IsMasked sigset (stop_all os sv)
  unfolding stop_all stop_each
  stop_all-IsMasked sv a =
      retain_with_state (AllMasked sigset) (stop_each os)
        (λ k s h b. stop_service-AllMasked os sigset s h b) sv.registry.services_map sv.history a

  abbrev EndsMasked : Flow → Type 0
  EndsMasked = Ends (IsMasked sigset) (λ r sv. IsMasked sigset sv) Unit

  exit_if_stopped-EndsMasked :
      (sv : Supervisor) → IsMasked sigset sv → EndsMasked (exit_if_stopped sv)
  exit_if_stopped-EndsMasked sv a =
      if_cases EndsMasked (all_stopped sv.registry) _ _ (λ _. a) (λ _. a)

  after_reaping-EndsMasked :
      (sv : Supervisor) (o : Option Handled)
      → ((out : Handled) → o ≡ some out → AllMasked sigset out.2)
      → EndsMasked (after_reaping sv o)
  unfolding after_reaping
  after_reaping-EndsMasked sv none f = tt
  after_reaping-EndsMasked sv (some (err e, registry, h)) f = f _ refl
  after_reaping-EndsMasked sv (some (ok _, registry, h)) f =
      let sv' : Supervisor = record sv { registry = registry; history = h } in
      if_cases EndsMasked (state_is_running sv.sv_state) _ _ (λ _. f _ refl)
        (λ _. exit_if_stopped-EndsMasked sv' (f _ refl))

  on_sigchld-EndsMasked :
      (sv : Supervisor) → IsMasked sigset sv → EndsMasked (on_sigchld os fuel sv)
  unfolding on_sigchld
  on_sigchld-EndsMasked sv a =
      after_reaping-EndsMasked sv (handle_sigchld os fuel sv.registry sv.history)
        (λ out e. handle_sigchld-AllMasked os sigset fuel sv.registry sv.history out a e)

  on_shutdown-EndsMasked : (sv : Supervisor) → IsMasked sigset sv → EndsMasked (on_shutdown os sv)
  unfolding on_shutdown
  on_shutdown-EndsMasked sv a = exit_if_stopped-EndsMasked _ (
      if_cases (IsMasked sigset) (state_is_running sv.sv_state) _ _
        (λ _. stop_all-IsMasked (record sv { sv_state = shutdown_requested }) a) (λ _. a))

  on_sighup-IsMasked :
      (sv : Supervisor) → IsMasked sigset sv → IsMasked sigset (on_sighup os sigset sv)
  unfolding on_sighup
  on_sighup-IsMasked sv a = reload_services-AllMasked os sigset sv.registry sv.id_gen sv.history a

  IsMasked-kept : IsKept os sigset fuel (IsMasked sigset) (λ r sv. IsMasked sigset sv) Unit
  IsMasked-kept = record {
    logged = λ sv c e a. plain-AllMasked sigset c sv.history e a;
    failed = λ sv e n a. a;
    reloaded = on_sighup-IsMasked;
    reaped = on_sigchld-EndsMasked;
    shut = on_shutdown-EndsMasked;
    turned = λ sv a. tick-AllMasked os sigset sv.registry sv.history a;
    requested = λ sv k op a. apply_control_op-AllMasked os sigset sv.registry k op sv.history a;
  }

  pub rounds-EndsMasked :
      (n : ℕ) (sv : Supervisor)
      → startup os sigset [] ≡ ok sv
      → Ends (IsMasked sigset) (λ r end. IsMasked sigset end) Unit (rounds os sigset fuel n sv)
  rounds-EndsMasked n sv e =
      rounds-Ends os sigset fuel (IsMasked sigset) (λ r end. IsMasked sigset end) Unit IsMasked-kept
        n sv (startup-AllMasked os sigset sv e)
