-- ===== src/ControlOps.antt =====
-- src/service.rs: `apply_control_op`.
pub mod Invariant
pub mod Stages
pub mod Requests
pub mod Masks
use svlopp.Prelude.{ℕ, Bool, true, false, ◌&&◌, Option, none, some, if◌then◌else◌, Result, ok}
use svlopp.Os.{Os, SigSet, History}
use svlopp.Control.{ControlOp, stop, start, restart}
use svlopp.Service.Types.{ServiceState, stopped, running, stopping, is_none, ServicePendingAction}
use svlopp.Service.Types
use svlopp.Service.Methods.{Service, state_is_stopped}
use svlopp.Registry.Defs.{ServiceRegistry, Handled, service, start_registered, stop_registered}

abbrev pub is_running : ServiceState → Bool
is_running (running _) = true
is_running _ = false

module _ (os : Os) (svc_id : ℕ) (svc : Service) (sigset : SigSet) (registry : ServiceRegistry)
    (h : History) where
  restart_in : ServiceState → Handled
  unfolding is_none
  restart_in (stopped _) =
      if is_none svc.pending_action
      then start_registered os svc_id svc.id svc sigset registry h
      else (ok tt, registry, h)
  restart_in (running _) =
      if is_none svc.pending_action
      then stop_registered os svc_id (record svc { pending_action = Types.restart }) registry h
      else (ok tt, registry, h)
  restart_in (stopping _ _) = (ok tt, registry, h)

  apply_to : ControlOp → Handled
  unfolding restart_in
  apply_to stop =
      if is_running svc.state
      then stop_registered os svc_id svc registry h
      else (ok tt, registry, h)
  apply_to start =
      if state_is_stopped svc.state && is_none svc.pending_action
      then start_registered os svc_id svc.id svc sigset registry h
      else (ok tt, registry, h)
  apply_to restart = restart_in svc.state

-- An unknown id is logged and ignored.
unfoldable pub apply_control_op : Os → ServiceRegistry → ℕ → ControlOp → SigSet → History → Handled
unfolding apply_to
apply_control_op os registry svc_id op sigset h = elim (service svc_id registry) [
  | none ↦ (ok tt, registry, h)
  | some svc ↦ apply_to os svc_id svc sigset registry h op
]
