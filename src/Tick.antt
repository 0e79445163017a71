-- ===== src/Tick.antt =====
-- src/main.rs: the timer's turn (`ID_TFD`) over the registry: kill deadlines, pending actions.
pub mod Invariant
pub mod Stages
pub mod Deadlines
pub mod Actions
pub mod Outcomes
pub mod Masks
use svlopp.Prelude.{ℕ, Option, none, some, leb, if◌then◌else◌, Result, ok, err}
use svlopp.Prelude.Maps.{Map, insert}
use svlopp.Prelude.Maps.Loop.{retain_with}
use svlopp.Os.{Os, SigSet, History, clock_read}
use svlopp.Service.Types.{
  ServiceState, stopped, running, stopping, ServiceStopReason, never_started, supervisor_terminated,
  ServicePendingAction, nothing, restart, remove,
}
use svlopp.Service.Methods.{Service, pid, fallback_pending_action, take_pending_action}
use svlopp.Service.Process.{start_service, force_kill_service_process}
use svlopp.Registry.Defs.{ServiceRegistry, pids_after}
use mathlib.Core.List.{◌∷◌}

-- The `pids_map` and the calls made, which the turn threads through the services.
abbrev pub Turn : Type 0
Turn = Map ℕ ℕ × History

-- The action after a stop, where none was pending.
fallback : Service → ServiceStopReason → ServicePendingAction
fallback svc never_started = nothing
fallback svc (supervisor_terminated _) = nothing
fallback svc _ = fallback_pending_action svc

unfoldable pub pending_or_fallback :
    Service → ServicePendingAction → ServiceStopReason → ServicePendingAction
unfolding fallback
pending_or_fallback svc nothing reason = fallback svc reason
pending_or_fallback svc p reason = p

module _ (os : Os) (original_sigset : SigSet) where
  restart_stopped : ℕ → Service → Turn → Option Service × Turn
  restart_stopped svc_id svc (pids_map, h) =
      let (result, svc', h') = start_service os svc original_sigset h in
      (some svc', (pids_after result (pid svc') svc_id pids_map, h'))

  apply_pending : ServicePendingAction → ℕ → Service → Turn → Option Service × Turn
  unfolding restart_stopped
  apply_pending nothing svc_id svc t = (some svc, t)
  apply_pending remove svc_id svc t = (none, t)
  apply_pending restart svc_id svc t = restart_stopped svc_id svc t

  -- `match svc.state`: `none` drops the service.
  turn_in : ℕ → ServiceState → ℕ → Service → Turn → Option Service × Turn
  unfolding apply_pending take_pending_action pending_or_fallback
  turn_in now (stopping pid kill_deadline) svc_id svc (pids_map, h) =
      if leb kill_deadline now
      then (some svc, (pids_map, (force_kill_service_process os pid h).1))
      else (some svc, (pids_map, h))
  turn_in now (stopped stop_reason) svc_id svc t =
      let (pending, svc') = take_pending_action svc in
      apply_pending (pending_or_fallback svc' pending stop_reason) svc_id svc' t
  turn_in now (running _) svc_id svc t = (some svc, t)

  unfoldable pub turn : ℕ → ℕ → Service → Turn → Option Service × Turn
  unfolding turn_in
  turn now svc_id svc t = turn_in now svc.state svc_id svc t

-- The whole turn: read the clock, then `services_map.retain`.
unfoldable pub tick : Os → SigSet → ServiceRegistry → History → ServiceRegistry × History
tick os original_sigset registry h =
    let now = os.now h in
    let (services_map, (pids_map, h')) =
      retain_with (turn os original_sigset now) registry.services_map
        (registry.pids_map, clock_read now ∷ h) in
    (record { services_map = services_map; pids_map = pids_map }, h')
