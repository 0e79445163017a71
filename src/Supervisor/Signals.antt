-- ===== src/Supervisor/Signals.antt =====
-- main.rs: what the loop does for each signal that it has read.
pub mod Invariant
use svlopp.Prelude.{
  ℕ, ◌==◌, nat_eq, ◌&&◌, ◌||◌, Option, none, some, List, [], ◌∷◌, if◌then◌else◌, ok, err,
}
use svlopp.Utils.{sighup, sigchld, sigint, sigterm}
use svlopp.Os.{Os, SigSet}
use svlopp.Registry.Defs.{Handled, all_stopped}
use svlopp.Reload.{Reloaded, reload_services}
use svlopp.Reap.{handle_sigchld}
use svlopp.Supervisor.State.{
  Supervisor, Flow, continues, exits, out_of_fuel, and_flow, shutdown_requested, state_is_running,
  stop_all,
}

-- The result of a reload is only logged.
after_reload : Supervisor → Reloaded → Supervisor
after_reload sv (result, registry, id_gen, h) = record sv {
  registry = registry;
  id_gen = id_gen;
  history = h;
}

unfoldable pub on_sighup : Os → SigSet → Supervisor → Supervisor
unfolding after_reload
on_sighup os original_sigset sv =
    after_reload sv (reload_services os sv.registry sv.id_gen original_sigset sv.history)

-- "All services stopped, exiting".
abbrev pub exit_if_stopped : Supervisor → Flow
exit_if_stopped sv = if all_stopped sv.registry then exits (ok tt) sv else continues sv

unfoldable pub after_reaping : Supervisor → Option Handled → Flow
after_reaping sv none = out_of_fuel
after_reaping sv (some (err e, registry, h)) =
    exits (err e) (record sv { registry = registry; history = h })
after_reaping sv (some (ok _, registry, h)) =
    let sv' = record sv { registry = registry; history = h } in
    if state_is_running sv.sv_state then continues sv' else exit_if_stopped sv'

unfoldable pub on_sigchld : Os → ℕ → Supervisor → Flow
unfolding after_reaping
on_sigchld os fuel sv = after_reaping sv (handle_sigchld os fuel sv.registry sv.history)

-- Only the first request stops the services.
unfoldable pub on_shutdown : Os → Supervisor → Flow
on_shutdown os sv = exit_if_stopped (
    if state_is_running sv.sv_state
    then stop_all os (record sv { sv_state = shutdown_requested })
    else sv)

-- The three tests on a signal's number, in order.
unfoldable pub on_signal : Os → SigSet → ℕ → ℕ → Supervisor → Flow
on_signal os original_sigset fuel signo sv =
    let reloaded =
      if signo == sighup && state_is_running sv.sv_state
      then on_sighup os original_sigset sv
      else sv in
    and_flow (if signo == sigchld then on_sigchld os fuel reloaded else continues reloaded)
      (λ sv'. if signo == sigint || signo == sigterm then on_shutdown os sv' else continues sv')

unfoldable pub on_signals : Os → SigSet → ℕ → List ℕ → Supervisor → Flow
on_signals os original_sigset fuel [] sv = continues sv
on_signals os original_sigset fuel (signo ∷ rest) sv =
    and_flow (on_signal os original_sigset fuel signo sv) (on_signals os original_sigset fuel rest)
